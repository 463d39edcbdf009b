-- ===== src/Notifications/Dispatch.antt =====
-- src/notifications/notification-dispatch.service.ts: `dispatchPending`, the turn of its loop with the
-- `catch`, and `retryFailed`.
use meru_core.Base.{
  ℕ, suc, String, Option, none, some, List, [], ◌∷◌, Bool, true, ◌==◌, ◌&&◌, ◌||◌, if◌then◌else◌,
  leb, filter, map, length, ◌+++◌, Result, ok, err,
}
use meru_core.Queue.Listing.{take_rows}
use meru_core.Notifications.Types.{pending, Notification, is_pending, is_queued, is_retrying}
use meru_core.Notifications.Delivery.{
  Transport, Outcome, refused_with, delivery, was_delivered, was_failed, was_skipped,
}

-- `save` of a row that is there
abbrev pub put_notification : Notification → List Notification → List Notification
put_notification n [] = []
put_notification n (m ∷ ms) =
    let rest = put_notification n ms in if m.id == n.id then n ∷ rest else m ∷ rest

abbrev pub put_unless : Option String → Notification → List Notification → List Notification
put_unless none n rows = put_notification n rows
put_unless (some e) n rows = rows

abbrev pub parked_with : Transport → String → Notification → Notification
parked_with t reason n = refused_with t ("dispatch error: " +++ reason) n

-- The `catch` of the loop: the row is parked, if that can be saved.
abbrev pub park :
    Transport → String → Notification → List Notification → Outcome × List Notification
park t reason n rows =
    (was_failed, put_unless (t.save_error (parked_with t reason n)) (parked_with t reason n) rows)

abbrev pub saved_or_parked :
    Transport
    → Option String
    → Notification
    → Outcome
    → List Notification
    → Outcome × List Notification
saved_or_parked t none n outcome rows = (outcome, put_notification n rows)
saved_or_parked t (some e) n outcome rows = park t e n rows

abbrev pub settled :
    Transport
    → Notification × Result String Outcome
    → List Notification
    → Outcome × List Notification
settled t (n, err thrown) rows = park t thrown n rows
settled t (n, ok outcome) rows = saved_or_parked t (t.save_error n) n outcome rows

-- One turn of the loop.
unfoldable pub dispatch_one :
    Transport → Notification → List Notification → Outcome × List Notification
dispatch_one t n rows = settled t (delivery t n.type n) rows

pub record Dispatched : Type 0 where
  pub processed : ℕ
  pub delivered : ℕ
  pub failed : ℕ
  pub skipped : ℕ

abbrev pub count_outcome : Outcome → Dispatched → Dispatched
count_outcome was_delivered d = record d { delivered = suc d.delivered }
count_outcome was_skipped d = record d { skipped = suc d.skipped }
count_outcome was_failed d = record d { failed = suc d.failed }

abbrev pub dispatch_all :
    Transport → List Notification → Dispatched → List Notification → Dispatched × List Notification
dispatch_all t [] d rows = (d, rows)
dispatch_all t (n ∷ ns) d rows =
    let (outcome, after) = dispatch_one t n rows in
    dispatch_all t ns (count_outcome outcome d) after

abbrev pub is_time : ℕ → Option ℕ → Bool
is_time now none = true
is_time now (some at) = leb at now

abbrev pub is_dispatchable : ℕ → Notification → Bool
is_dispatchable now n = (is_pending n.status && is_time now n.scheduled_at) || is_queued n.status

abbrev pub insert_oldest : Notification → List Notification → List Notification
insert_oldest n [] = n ∷ []
insert_oldest n (m ∷ ms) =
    let rest = insert_oldest n ms in if leb n.created_at m.created_at then n ∷ m ∷ ms else m ∷ rest

abbrev pub oldest_first : List Notification → List Notification
oldest_first [] = []
oldest_first (n ∷ ns) = insert_oldest n (oldest_first ns)

abbrev pub batch : ℕ → ℕ → List Notification → List Notification
batch now limit rows = take_rows limit (oldest_first (filter (is_dispatchable now) rows))

unfoldable pub dispatch_pending : Transport → ℕ → List Notification → Dispatched × List Notification
dispatch_pending t limit rows =
    dispatch_all t (batch t.now limit rows)
      (record {
        processed = length (batch t.now limit rows);
        delivered = 0;
        failed = 0;
        skipped = 0;
      })
      rows

abbrev pub requeue : Notification → Notification
requeue n = if is_retrying n.status then record n { status = pending } else n

-- The count is capped by `limit`, the update is not.
unfoldable pub retry_failed : ℕ → List Notification → ℕ × List Notification
retry_failed limit rows =
    let affected = length (filter (λ n. is_retrying n.status) rows) in
    (if leb affected limit then affected else limit, map requeue rows)
