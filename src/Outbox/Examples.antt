-- ===== src/Outbox/Examples.antt =====
-- Witnesses for the theorems about the outbox (internal/db/scanner.go), on one transfer and one
-- endpoint.
use tronvent.Base.{
  ℕ, ◌+◌, ◌≤◌, String, Bool, true, false, none, some, List, [], ◌∷◌, ◌≡◌, ◌≢◌, refl, arith, str_eq,
  eq_iff, any, trim_space, has_char,
}
use tronvent.Payload.{
  Envelope, transfer_dedupe_key, endpoint_subscribes, is_known_event_type, normalize_event_type,
}
use tronvent.Outbox.{Event, WebhookEndpoint, Status, delivering, delivered}
use tronvent.Outbox.Enqueue.{
  Request, Batch, ok, rows_after, enqueue_webhook_event, enqueue_loop, enqueue_for, dedupe_key,
  legacy_webhook_dedupe_exists, new_row, validate_payload_size,
}
use tronvent.Outbox.Enqueue.Loop.{OnOk, AllCovered}
use tronvent.Outbox.Enqueue.Dedupe.{Plain, KeysUnique, request_key_unique, enqueue-KeysUnique}
use tronvent.Outbox.Enqueue.Fanout.{Grown, enqueue_fanout}
use tronvent.Outbox.Lifecycle.{stale_after, chosen_ids}
use tronvent.Outbox.Lifecycle.Claims.{AllWithId}
use tronvent.Outbox.Replay.{
  Op, claim, mark_delivered, mark_failed, retry, retry_all, apply_all, enqueue_again,
}
use tronvent.Outbox.Quiet.{
  AllLeaveAlone, IsDelivered, IsClaimed, IsDelivered-apply_all, IsClaimed-apply_all,
}

abbrev pub endpoint : WebhookEndpoint
endpoint = record {
  id = "ep";
  webhook_url = "https://hooks.example";
  signing_secret = "whsec_a";
  signing_secret_previous = "";
  signing_public_key = "";
  event_types = [];
  is_active = true;
  failure_notify_email = "";
  source = "api";
  updated_at = 0;
}

abbrev pub transfer : Request
transfer = record {
  std_type = "transaction.trx.received";
  scope = "TRX";
  tx_hash = "aa";
  block_number = 7;
  block_timestamp = 70;
  payload = record {
    type = "transaction.trx.received";
    timestamp = "t";
    payload = record {
      id = "";
      tx_hash = "aa";
      from_address = "Ta";
      to_address = "Tb";
      amount = "5";
      token_contract_address = "";
      block_number = 7;
      block_timestamp = 70;
      confirmations = 20;
    };
  };
}

abbrev to_json : Envelope → String
to_json p = "{}"

abbrev draw : ℕ → String
draw n = "u"

abbrev everyone : String → Bool
everyone id = true

-- The table after the first call.
abbrev first_row : Event
first_row = new_row 10 transfer endpoint "u"

abbrev one_row : Batch
one_row = record { rows = first_row ∷ []; drawn = 1; first_id = some "u" }

first_call :
    enqueue_webhook_event to_json draw 10 (endpoint ∷ []) everyone transfer [] 0 ≡ ok one_row
unfolding enqueue_webhook_event enqueue_loop enqueue_for is_known_event_type normalize_event_type
    trim_space endpoint_subscribes dedupe_key transfer_dedupe_key new_row
    legacy_webhook_dedupe_exists validate_payload_size
first_call = refl

transfer_known : is_known_event_type (normalize_event_type "transaction.trx.received") ≡ true
unfolding is_known_event_type normalize_event_type trim_space
transfer_known = refl

transfer-Plain : Plain transfer endpoint
unfolding has_char
transfer-Plain = record {
  scope = refl;
  tx_hash = refl;
  std_type = refl;
  from_address = refl;
  to_address = refl;
  amount = refl;
  named = ground (arith, eq_iff "ep" "");
}

-- The claim, a failed attempt, a retry by the admin, and the delivery.
abbrev history : List (ℕ × Op)
history =
    (20, claim 10 (λ id. false))
    ∷ (30, mark_failed "u" 1 (some 500) "HTTP 500" 5_000_000_000 10)
    ∷ (40, retry "u")
    ∷ (50, claim 10 (λ id. false))
    ∷ (60, mark_delivered "u" 200)
    ∷ []

abbrev others : List (ℕ × Op)
others =
    (70, claim 10 (λ id. false))
    ∷ (80, mark_delivered "v" 200)
    ∷ (90, retry "w")
    ∷ (95, retry_all)
    ∷ []

u_not_v : ◌≢◌ {A = String} "u" "w"
u_not_v = ground (arith, eq_iff "u" "w")

v_not_w : ◌≢◌ {A = String} "v" "w"
v_not_w = ground (arith, eq_iff "v" "w")

abbrev named_w : Status → Event
named_w s = record first_row { id = "w"; status = s; updated_at = 20 }

others_leave_alone : AllLeaveAlone "w" (λ t. Unit) others
others_leave_alone = (tt, tt, (tt, v_not_w, (tt, tt, (tt, tt, tt))))

others_in_time : AllLeaveAlone "w" (λ t. t ≤ 20 + stale_after) others
others_in_time = (omega arith, tt, (omega arith, v_not_w, (omega arith, tt, (omega arith, tt, tt))))

request_key_unique_example :
    (transfer.scope ≡ transfer.scope)
    × (transfer.tx_hash ≡ transfer.tx_hash)
    × (transfer.std_type ≡ transfer.std_type)
    × (trim_space "Ta" ≡ trim_space "Ta")
    × (trim_space "Tb" ≡ trim_space "Tb")
    × (trim_space "5" ≡ trim_space "5")
    × (endpoint.id ≡ endpoint.id)
request_key_unique_example =
    request_key_unique transfer transfer endpoint endpoint transfer-Plain transfer-Plain refl

enqueue-KeysUnique_example : KeysUnique (
    rows_after (first_row ∷ []) (
      enqueue_webhook_event to_json draw 11
        (endpoint ∷ [])
        everyone
        (record transfer { tx_hash = "bb" })
        (first_row ∷ [])
        1))
enqueue-KeysUnique_example =
    enqueue-KeysUnique to_json draw 11 (endpoint ∷ []) everyone (record transfer { tx_hash = "bb" })
      (first_row ∷ []) 1 (refl, tt)

enqueue_fanout_example :
    let q = record transfer { std_type = normalize_event_type "transaction.trx.received" } in
    Grown 10 everyone q (endpoint ∷ []) (record { rows = []; drawn = 0; first_id = none }) one_row
    × AllCovered everyone q (endpoint ∷ []) (first_row ∷ [])
enqueue_fanout_example =
    enqueue_fanout to_json draw 10 (endpoint ∷ []) everyone transfer [] 0 one_row transfer_known
      first_call

enqueue_again_example :
    let rows = apply_all to_json draw history (first_row ∷ []) in
    let second = enqueue_webhook_event to_json draw 99 (endpoint ∷ []) everyone transfer rows 1 in
    (rows_after rows second ≡ rows) × OnOk (λ b. b.first_id ≡ none) second
enqueue_again_example =
    enqueue_again to_json draw 10 99 (endpoint ∷ []) everyone transfer [] 0 1 history one_row
      first_call

IsDelivered-apply_all_example :
    let rows = apply_all to_json draw others (named_w delivered ∷ []) in
    AllWithId "w" IsDelivered rows
    × (any (λ j. str_eq j "w") (chosen_ids 1_000_000_000_000 10 (λ id. false) rows) ≡ false)
IsDelivered-apply_all_example =
    IsDelivered-apply_all to_json draw "w" others (named_w delivered ∷ []) 1_000_000_000_000 10
      (λ id. false) (λ n. u_not_v) others_leave_alone ((λ d. refl), tt)

IsClaimed-apply_all_example :
    let rows = apply_all to_json draw others (named_w delivering ∷ []) in
    AllWithId "w" (IsClaimed 20) rows
    × (any (λ j. str_eq j "w") (chosen_ids 200_000_000_000 10 (λ id. false) rows) ≡ false)
IsClaimed-apply_all_example =
    IsClaimed-apply_all to_json draw "w" 20 others (named_w delivering ∷ []) 200_000_000_000 10
      (λ id. false) (λ n. u_not_v) (omega arith) others_in_time ((λ d. (refl, omega arith)), tt)
