-- ===== src/Payer/Loading.antt =====
-- tools/ppops-payer/src/request.ts: where a payment request is loaded from, and how much of it.
use ppops.Prelude.{
  ℕ, ◌+◌, ◌*◌, ◌≤◌, ◌≡◌, refl, ap, sym, ◌∙◌, Bool, true, ◌&&◌, ◌||◌, List, [], ◌∷◌, ◌++◌, Option,
  none, some, arith, leb, ◌==◌, length, length-append, Text, codes, text_eq, is_some,
}
use ppops.Prelude.Results.{Result, ok, err, ◌>>=◌, ◌>>◌, guard, guarded, ok-inj, >>=-eq-ok}
use ppops.Domain.Memo.{strip_prefix}

pub data LoadError : Type 0 where
  not_live too_large no_body credentials_forbidden https_required bad_response : LoadError

abbrev pub max_request_bytes : ℕ
max_request_bytes = 64 * 1_024

-- /^https?:\/\//i
unfoldable pub is_http_source : Text → Bool
unfolding strip_prefix
is_http_source source =
    is_some (strip_prefix (codes "http://") source)
    || is_some (strip_prefix (codes "https://") source)

unfoldable pub assert_live_payment_request_source : Text → Result LoadError (Unit {0})
unfolding is_http_source
assert_live_payment_request_source source = guard (is_http_source source) not_live

-- The parts of a parsed URL.
pub record Url : Type 0 where
  pub protocol : Text
  pub hostname : Text
  pub username : Text
  pub password : Text

abbrev is_loopback : Url → Bool
is_loopback url =
    text_eq url.hostname (codes "localhost")
    || text_eq url.hostname (codes "127.0.0.1")
    || text_eq url.hostname (codes "[::1]")

-- The URLs that are fetched.
unfoldable pub check_url : Url → Result LoadError (Unit {0})
check_url url = do
  guard (length url.username == 0 && length url.password == 0) credentials_forbidden
  guard
      (text_eq url.protocol (codes "https:")
        || text_eq url.protocol (codes "http:") && is_loopback url)
      https_required

-- The loop on the chunks of a body, each a list of bytes.
unfoldable pub read_chunks : ℕ → List Text → Result LoadError Text
read_chunks total [] = ok []
read_chunks total (value ∷ chunks) = do
  guard (leb (total + length value) max_request_bytes) too_large
  rest ← read_chunks (total + length value) chunks
  ok (value ++ rest)

-- `declared` is the number in the content-length header, 0 without one and none where it is not
-- finite; a response has a body or has none.
abbrev declared_fits : Option ℕ → Bool
declared_fits none = true
declared_fits (some declared) = leb declared max_request_bytes

abbrev body_of : Option (List Text) → Result LoadError (List Text)
body_of none = err no_body
body_of (some chunks) = ok chunks

unfoldable pub read_response_body : Option ℕ → Option (List Text) → Result LoadError Text
unfolding read_chunks
read_response_body declared body = do
  guard (declared_fits declared) too_large
  chunks ← body_of body
  read_chunks 0 chunks

abbrev concat : List Text → Text
concat [] = []
concat (value ∷ chunks) = value ++ concat chunks

-- Chunks that fit are read whole.
pub read_chunks-concat :
    (total : ℕ) (chunks : List Text)
    → (total + length (concat chunks) ≤ max_request_bytes)
    → read_chunks total chunks ≡ ok (concat chunks)
unfolding read_chunks
read_chunks-concat total [] h = refl
read_chunks-concat total (value ∷ chunks) h =
    let size = length-append value (concat chunks) in
    let here : leb (total + length value) max_request_bytes ≡ true = ground arith in
    rw (here, read_chunks-concat (total + length value) chunks (omega (arith, size))) refl

-- What is read is all of the chunks, and no more than 64 KiB of them.
pub read_chunks-bounds :
    (total : ℕ) (chunks : List Text) (text : Text)
    → total ≤ max_request_bytes
    → read_chunks total chunks ≡ ok text
    → (text ≡ concat chunks) × (total + length text ≤ max_request_bytes)
unfolding read_chunks
read_chunks-bounds total [] text small h =
    let same : [] ≡ text = ok-inj refl h in
    let size : 0 ≡ length text = ap length same in (sym same, omega arith)
read_chunks-bounds total (value ∷ chunks) text small h =
    let (fits, h1) = guarded (leb (total + length value) max_request_bytes) too_large _ h in
    let (rest, read, h2) = >>=-eq-ok (read_chunks (total + length value) chunks) _ h1 in
    let (is, bound) = read_chunks-bounds (total + length value) chunks rest (ground arith) read in
    let same : value ++ rest ≡ text = ok-inj refl h2 in
    let size : length value + length rest ≡ length text =
      sym (length-append value rest) ∙ ap length same in
    (sym same ∙ ap (λ r. value ++ r) is, omega arith)
