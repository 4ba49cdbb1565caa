-- ===== src/Webhook.antt =====
-- src/events/webhook.ts: signing, verifying and delivering webhook events. `hmac_hex` stands for
-- node's HMAC-SHA-256 under a key given in hexadecimal, with a hexadecimal digest; what a request
-- comes to is an argument of the delivery.
pub mod Signature
pub mod Outcomes
pub mod Delivery
pub mod Retrying
use ppops.Prelude.{
  ℕ, zero, suc, ◌+◌, ◌-◌, ◌*◌, ◌/◌, ◌^◌, ◌≡◌, Bool, true, false, not, ◌&&◌, ◌||◌, List, [], ◌∷◌,
  ◌++◌, Option, none, some, ltb, leb, ◌==◌, if◌then◌else◌, length, all, any, Text, codes, text_eq,
}
use Prim.Native.Nat.{min, max}
use ppops.Domain.Amount.{is_digit, to_text}
use ppops.Domain.Memo.{is_hex}
use ppops.Descriptor.{max_safe_integer}
use ppops.Database.{Database, OutboxRow}
use ppops.Database.Outbox.{
  list_pending_events, mark_event_delivered, mark_event_failed, mark_event_dead_lettered,
}

pub data WebhookFailureCode : Type 0 where
  timeout http_4xx http_5xx http_other network delivery_failed : WebhookFailureCode

abbrev pub failure_text : WebhookFailureCode → Text
failure_text timeout = codes "TIMEOUT"
failure_text http_4xx = codes "HTTP_4XX"
failure_text http_5xx = codes "HTTP_5XX"
failure_text http_other = codes "HTTP_OTHER"
failure_text network = codes "NETWORK"
failure_text delivery_failed = codes "DELIVERY_FAILED"

-- A thrown value: an `Error` with its name, message, `code` (empty where it has none) and whether
-- it is a `TypeError`, or something else.
pub data Thrown : Type 0 where
  error : Text → Text → Text → Bool → Thrown
  other : Thrown

unfoldable pub strip_text : Text → Text → Option Text
strip_text [] s = some s
strip_text (p ∷ ps) [] = none
strip_text (p ∷ ps) (c ∷ s) = if p == c then strip_text ps s else none

-- The first digit, if the text begins with three.
abbrev three_digits : Option Text → Option ℕ
three_digits (some (a ∷ b ∷ c ∷ s)) =
    if is_digit a && is_digit b && is_digit c then some a else none
three_digits _ = none

abbrev or_else : Option ℕ → Option ℕ → Option ℕ
or_else none later = later
or_else (some a) later = some a

-- /Webhook returned HTTP ([0-9]{3})/, the first digit of its leftmost match
pub http_status_digit : Text → Option ℕ
unfolding strip_text
http_status_digit [] = none
http_status_digit (c ∷ s) =
    or_else (three_digits (strip_text (codes "Webhook returned HTTP ") (c ∷ s)))
      (http_status_digit s)

-- `toUpperCase` of an error code, which is ASCII
abbrev upper : ℕ → ℕ
upper c = if leb b'a' c && leb c b'z' then c - 32 else c

abbrev to_upper_case : Text → Text
to_upper_case [] = []
to_upper_case (c ∷ s) = upper c ∷ to_upper_case s

abbrev network_codes : List Text
network_codes =
    codes "ECONNREFUSED"
    ∷ codes "ECONNRESET"
    ∷ codes "ENETUNREACH"
    ∷ codes "ENOTFOUND"
    ∷ codes "EAI_AGAIN"
    ∷ []

abbrev classify_status : Option ℕ → WebhookFailureCode → WebhookFailureCode
classify_status none otherwise = otherwise
classify_status (some digit) otherwise =
    if digit == b'4' then http_4xx else if digit == b'5' then http_5xx else http_other

unfoldable pub classify_webhook_failure : Thrown → WebhookFailureCode
unfolding http_status_digit
classify_webhook_failure other = delivery_failed
classify_webhook_failure (error name message code is_type_error) =
    if text_eq name (codes "AbortError") || text_eq name (codes "TimeoutError")
    then timeout
    else classify_status (http_status_digit message) (
        if any (text_eq (to_upper_case code)) network_codes || is_type_error
        then network
        else delivery_failed)

abbrev dot : Text
dot = codes "."

-- The text that is signed.
unfoldable pub signed_text : ℕ → Text → Text → Text → Text
signed_text timestamp key_id event_id payload_json =
    to_text timestamp ++ dot ++ key_id ++ dot ++ event_id ++ dot ++ payload_json

abbrev pub is_lower_hex : ℕ → Bool
is_lower_hex c = is_digit c || leb b'a' c && leb c b'f'

-- /^[0-9a-f]{64}$/i
abbrev pub is_hmac_key : Text → Bool
is_hmac_key key = length key == 64 && all is_hex key

abbrev pub lower_hex_behind : Text → ℕ → Text → Bool
lower_hex_behind prefix size s = elim (strip_text prefix s) [
  | none ↦ false
  | some rest ↦ length rest == size && all is_lower_hex rest
]

-- /^evt_[0-9a-f]{32}$/
unfoldable pub is_event_id : Text → Bool
unfolding strip_text
is_event_id s = lower_hex_behind (codes "evt_") 32 s

-- /^v1=[0-9a-f]{64}$/
unfoldable pub is_signature : Text → Bool
unfolding strip_text
is_signature s = lower_hex_behind (codes "v1=") 64 s

abbrev is_key_id_character : ℕ → Bool
is_key_id_character c =
    leb b'A' c && leb c b'Z'
    || leb b'a' c && leb c b'z'
    || is_digit c
    || c == b'.'
    || c == b'_'
    || c == b'-'

-- /^[A-Za-z0-9._-]{1,64}$/
unfoldable pub is_key_id : Text → Bool
is_key_id s = leb 1 (length s) && leb (length s) 64 && all is_key_id_character s

abbrev pub distance : ℕ → ℕ → ℕ
distance a b = (a - b) + (b - a)

module _ (hmac_hex : Text → Text → Text) where
  unfoldable pub webhook_signature : Text → ℕ → Text → Text → Text → Text
  unfolding signed_text
  webhook_signature hmac_key_hex timestamp event_id payload_json key_id =
      codes "v1=" ++ hmac_hex hmac_key_hex (signed_text timestamp key_id event_id payload_json)

  -- Times are non-negative; a signature that passes its test is compared in full.
  unfoldable pub verify_webhook_signature : Text → ℕ → Text → Text → Text → Text → ℕ → ℕ → Bool
  verify_webhook_signature hmac_key_hex timestamp event_id key_id payload_json signature now
        tolerance_seconds =
      is_hmac_key hmac_key_hex
      && leb timestamp max_safe_integer
      && leb tolerance_seconds max_safe_integer
      && leb (distance now timestamp) tolerance_seconds
      && is_event_id event_id
      && is_key_id key_id
      && is_signature signature
      && text_eq (webhook_signature hmac_key_hex timestamp event_id payload_json key_id) signature

-- The fields of `config.webhook` that the delivery reads.
pub record WebhookConfig : Type 0 where
  pub max_attempts : ℕ
  pub base_retry_ms : ℕ
  pub max_retry_ms : ℕ

-- What a request comes to: a response with its status and `ok`, or a throw.
pub data Response : Type 0 where
  responded : ℕ → Bool → Response
  threw : Thrown → Response

-- `throw new Error(...)` where the response is not ok
abbrev http_error : ℕ → Thrown
http_error status =
    error (codes "Error") (codes "Webhook returned HTTP " ++ to_text status) [] false

abbrev pub failure_of : Response → Option WebhookFailureCode
failure_of (responded status true) = none
failure_of (responded status false) = some (classify_webhook_failure (http_error status))
failure_of (threw e) = some (classify_webhook_failure e)

pub record WebhookDeliveryResult : Type 0 where
  pub attempted : ℕ
  pub delivered : ℕ
  pub failed : ℕ
  pub dead_lettered : ℕ

abbrev pub no_deliveries : WebhookDeliveryResult
no_deliveries = record { attempted = 0; delivered = 0; failed = 0; dead_lettered = 0 }

-- Math.ceil(ms / 1_000)
abbrev pub ceil_seconds : ℕ → ℕ
ceil_seconds ms = (ms + 999) / 1000

module _ (config : WebhookConfig) where
  unfoldable pub retry_seconds : ℕ → ℕ
  retry_seconds attempts =
      max 1 (ceil_seconds (min (config.base_retry_ms * 2 ^ attempts) config.max_retry_ms))

  -- One round of the loop, behind the request.
  unfoldable pub record_outcome :
      OutboxRow
      → Option WebhookFailureCode
      → ℕ
      → WebhookDeliveryResult × Database
      → WebhookDeliveryResult × Database
  record_outcome row none now (result, db) = (
    record result { attempted = result.attempted + 1; delivered = result.delivered + 1 },
    mark_event_delivered row.event_id now db,
  )
  record_outcome row (some code) now (result, db) =
      if leb config.max_attempts (row.attempts + 1)
      then (
        record result {
          attempted = result.attempted + 1;
          dead_lettered = result.dead_lettered + 1;
        },
        mark_event_dead_lettered row.event_id now (failure_text code) db,
      )
      else (
        record result { attempted = result.attempted + 1; failed = result.failed + 1 },
        mark_event_failed row.event_id (now + retry_seconds row.attempts) (failure_text code) db,
      )

  unfoldable pub deliver_all :
      (OutboxRow → Response)
      → ℕ
      → List OutboxRow
      → WebhookDeliveryResult × Database
      → WebhookDeliveryResult × Database
  deliver_all request now [] s = s
  deliver_all request now (row ∷ rest) s =
      deliver_all request now rest (record_outcome row (failure_of (request row)) now s)

  -- `deliverPendingExclusive`; `deliverPending` runs these one after another.
  unfoldable pub deliver_pending :
      (OutboxRow → Response) → ℕ → Database → WebhookDeliveryResult × Database
  unfolding deliver_all
  deliver_pending request now db =
      deliver_all request now (list_pending_events now 25 db) (no_deliveries, db)
