-- ===== src/Scenarios/Shop.antt =====
-- A shop with one intent, and settlements that pay it.
use ppops.Prelude.{ℕ, refl, none, some, [], ◌∷◌, ◌++◌, replicate, Text, codes, arith}
use ppops.Domain.{
  spendable, finalized, PaymentIntentRecord, NormalizedSettlement, SettlementRecord,
  SignedPaymentDescriptor, matched, rail_name,
}
use ppops.Database.{Database, empty}
use ppops.Database.Intents.{
  initial_projection, get_intent, find_intent_by_reference, get_projection,
}
use ppops.Reconciliation.Coherence.{IsCoherent}
use ppops.Intents.Coherence.{IntentAdded-IsCoherent}

abbrev pub hex64 : Text
hex64 = replicate 64 b'a'

abbrev pub reference : Text
reference = codes "0x" ++ hex64

abbrev pub usdc : Text
usdc = codes "0xAf88"

abbrev pub signed : SignedPaymentDescriptor
signed = record {
  payload = record {
    version = 1;
    chain_id = 42161;
    rail = rail_name;
    token_address = usdc;
    decimals = 6;
    amount_atomic = codes "100";
    recipient_0zk = codes "0zk";
    reference = reference;
    expires_at = 1000;
    nonce = reference;
    merchant_signer = codes "0xBB";
  };
  signature = codes "0x" ++ replicate 130 b'0';
}

abbrev pub order : PaymentIntentRecord
order = record {
  id = codes "pi_1";
  external_reference = codes "order-1";
  reference = reference;
  chain_id = 42161;
  token_address = usdc;
  token_symbol = codes "USDC";
  decimals = 6;
  expected_amount_atomic = 100;
  recipient_0zk = codes "0zk";
  expires_at = 1000;
  descriptor = signed;
  created_at = 10;
}

-- The tables with that one intent.
abbrev pub shop : Database
shop = record empty {
  payment_intents = order ∷ [];
  intent_projections = initial_projection order.id order.created_at ∷ [];
}

empty-IsCoherent : IsCoherent empty
empty-IsCoherent = record { ids = tt; rows = tt; attached = tt; accounts = λ i h. cc }

pub shop-IsCoherent : IsCoherent shop
unfolding get_intent find_intent_by_reference get_projection
shop-IsCoherent =
    IntentAdded-IsCoherent order (omega arith) (omega arith) empty shop
      (record {
        new_id = refl;
        new_reference = refl;
        new_projection = refl;
        intents = refl;
        projections = refl;
        settlements = refl;
        outbox = refl;
      })
      empty-IsCoherent

-- A finalized and spendable settlement of `amount`, in block `block` at time `at`.
abbrev pub settlement_of : Text → ℕ → ℕ → ℕ → NormalizedSettlement
settlement_of id amount block at = record {
  unique_settlement_id = id;
  chain_id = 42161;
  txid_version = codes "V2";
  tree = 0;
  position = block;
  transaction_hash = id;
  railgun_txid = none;
  token_address = codes "0xaf88";
  amount_atomic = amount;
  block_number = block;
  block_timestamp = at;
  balance_bucket = codes "Spendable";
  raw_ppoi_statuses = [];
  chain_status = finalized;
  poi_status = spendable;
  reference = some reference;
}

abbrev pub recorded : NormalizedSettlement → SettlementRecord
recorded s = record {
  settlement = s;
  match_status = matched;
  intent_id = some order.id;
  first_seen_at = 20;
  last_seen_at = 20;
  eligible_at = some 20;
}

-- A digest for the examples: the text itself.
abbrev pub digest : Text → Text
digest s = s
