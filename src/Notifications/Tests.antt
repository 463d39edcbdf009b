-- ===== src/Notifications/Tests.antt =====
-- A batch whose oldest row makes the mail provider throw.
use meru_core.Base.{
  ℕ, none, some, List, [], ◌∷◌, true, false, ◌≡◌, ◌≢◌, refl, ◌==◌, ◌⊎◌, inl, inr, arith, In, All,
  ok, err, if◌then◌else◌,
}
use meru_core.Notifications.Types.{NotificationType, NotificationStatus, Notification}
use meru_core.Notifications.Delivery.{Transport, answered, resolve_email, is_uuid}
use meru_core.Notifications.Dispatch.{
  dispatch_pending, dispatch_one, retry_failed, is_dispatchable, batch,
}
use meru_core.Notifications.Tries.{IsWithinTries}
use meru_core.Notifications.Retries.{dispatch_pending-IsWithinTries}
use meru_core.Notifications.Batch.{dispatch_pending_leaves}

abbrev transport : Transport
transport = record {
  now = 1000;
  send_mail = λ to subject text. if to == "bad@x" then err "malformed" else ok true;
  post = λ url n. answered 500 false;
  email_of_user = λ id. ok none;
  trim_lower = λ s. s;
  print = λ n. "500";
  save_error = λ n. none;
}

abbrev poison : Notification
poison = record {
  id = "n1";
  tenant_id = "t1";
  type = NotificationType.email;
  status = NotificationStatus.pending;
  thread_key = none;
  recipient_id = "bad@x";
  recipient_email = none;
  subject = "";
  content = "";
  metadata = record { email = none; url = none; custom_url = none };
  delivery_attempts = [];
  retry_count = 0;
  scheduled_at = none;
  sent_at = none;
  created_at = 1;
}

abbrev sound : Notification
sound = record poison { id = "n2"; recipient_id = "u@x"; created_at = 2 }

abbrev last_try : Notification
last_try = record poison {
  id = "n3";
  type = NotificationType.webhook;
  metadata = record { email = none; url = some "http://x"; custom_url = none };
  retry_count = 2;
  created_at = 3;
}

abbrev later : Notification
later = record poison { id = "n4"; scheduled_at = some 2000; created_at = 4 }

abbrev inbox : List Notification
inbox = poison ∷ sound ∷ last_try ∷ later ∷ []

id_is_uuid : is_uuid "0a1b2c3d-0000-4000-8000-00000000FFFF" ≡ true
id_is_uuid = refl

address_is_no_uuid : is_uuid "bad@x" ≡ false
address_is_no_uuid = refl

-- The row that throws is parked, and the two after it are tried.
three_processed :
    (dispatch_pending transport 50 inbox).0
    ≡ (record { processed = 3; delivered = 1; failed = 2; skipped = 0 })
unfolding dispatch_pending dispatch_one resolve_email
three_processed = refl

dispatch_pending-IsWithinTries_example :
    All IsWithinTries (dispatch_pending transport 50 inbox).1
    × All IsWithinTries (retry_failed 50 inbox).1
dispatch_pending-IsWithinTries_example = dispatch_pending-IsWithinTries transport 50 inbox (
  inl (omega arith, omega arith),
  (
    inl (omega arith, omega arith),
    (inl (omega arith, omega arith), (inl (omega arith, omega arith), tt)),
  ),
)

later_is_left : In later (dispatch_pending transport 50 inbox).1
unfolding dispatch_pending dispatch_one resolve_email
later_is_left = inr (inr (inr (inl refl)))

dispatch_pending_leaves_example :
    ((at : ℕ) → is_dispatchable at later ≡ false)
    ⊎ (In later inbox × All (λ n. later.id ≢ n.id) (batch 1000 50 inbox))
dispatch_pending_leaves_example =
    dispatch_pending_leaves transport (λ n. refl) 50 inbox later later_is_left
