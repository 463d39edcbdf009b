-- ===== src/Notifications/Retries.antt =====
-- How often the sweep of src/notifications/notification-dispatch.service.ts tries a notification.
use meru_core.Base.{
  ℕ, ◌≡◌, none, some, Option, String, List, [], ◌∷◌, true, ◌==◌, ◌⊎◌, inl, inr, arith, leb, filter,
  In, All, All-of_In, In_of_All, All-map, All-imp, In-filter_iff, Bool-cases, Option-cases, Result,
  ok, err, if_elim,
}
use meru_core.Queue.Listing.Paging.{In-take_rows}
use meru_core.Notifications.Types.{pending, Notification, is_retrying}
use meru_core.Notifications.Delivery.{Transport, Outcome, delivery}
use meru_core.Notifications.Dispatch.{
  put_notification, put_unless, parked_with, settled, dispatch_one, Dispatched, dispatch_all,
  is_dispatchable, insert_oldest, oldest_first, batch, dispatch_pending, requeue, retry_failed,
}
use meru_core.Notifications.Tries.{IsFresh, IsWithinTries, delivery-StaysWithin}

-- The row that a turn has made, before it is saved or parked.
module _ (P : Notification → Type 0) (t : Transport) where
  put_notification-All :
      (m : Notification) (rows : List Notification)
      → P m
      → All P rows
      → All P (put_notification m rows)
  put_notification-All m [] p a = tt
  put_notification-All m (k ∷ ks) p a =
      if_elim (All P) (k.id == m.id) (m ∷ put_notification m ks) (k ∷ put_notification m ks)
        (p, put_notification-All m ks p a.1) (a.0, put_notification-All m ks p a.1)

  put_unless-All :
      (o : Option String) (m : Notification) (rows : List Notification)
      → P m
      → All P rows
      → All P (put_unless o m rows)
  put_unless-All none m rows p a = put_notification-All m rows p a
  put_unless-All (some e) m rows p a = a

  settled-All :
      (m : Notification) (r : Result String Outcome) (rows : List Notification)
      → P m
      → ((reason : String) → P (parked_with t reason m))
      → All P rows
      → All P (settled t (m, r) rows).1
  settled-All m (err e) rows p q a =
      put_unless-All (t.save_error (parked_with t e m)) (parked_with t e m) rows (q e) a
  settled-All m (ok o) rows p q a = elim (Option-cases (t.save_error m)) [
    | inl h ↦ rw h (put_notification-All m rows p a)
    | inr (e, h) ↦
        rw h (put_unless-All (t.save_error (parked_with t e m)) (parked_with t e m) rows (q e) a)
  ]

module _ (t : Transport) where
  dispatch_one-IsWithinTries :
      (n : Notification) (rows : List Notification)
      → IsFresh n
      → All IsWithinTries rows
      → All IsWithinTries (dispatch_one t n rows).1
  unfolding dispatch_one
  dispatch_one-IsWithinTries n rows l a =
      let (p, q) = delivery-StaysWithin t n.type n l in
      settled-All IsWithinTries t (delivery t n.type n).0 (delivery t n.type n).1 rows p q a

  dispatch_all-IsWithinTries :
      (ns : List Notification) (d : Dispatched) (rows : List Notification)
      → All IsFresh ns
      → All IsWithinTries rows
      → All IsWithinTries (dispatch_all t ns d rows).1
  dispatch_all-IsWithinTries [] d rows l a = a
  dispatch_all-IsWithinTries (n ∷ ns) d rows l a =
      dispatch_all-IsWithinTries ns _ _ l.1 (dispatch_one-IsWithinTries n rows l.0 a)

In-insert_oldest :
    (n : Notification) (ms : List Notification) (x : Notification)
    → In x (insert_oldest n ms)
    → (x ≡ n) ⊎ In x ms
In-insert_oldest n [] x m = elim m [ inl e ↦ inl e | inr b ↦ absurd b ]
In-insert_oldest n (k ∷ ks) x m = elim (Bool-cases (leb n.created_at k.created_at)) [
  | inl h ↦ rw h at m
  | inr h ↦ elim (rw h at m) [
    | inl e ↦ inr (inl e)
    | inr r ↦ elim (In-insert_oldest n ks x r) [ inl e ↦ inl e | inr k ↦ inr (inr k) ]
  ]
]

In-oldest_first : (ns : List Notification) (x : Notification) → In x (oldest_first ns) → In x ns
In-oldest_first [] x m = absurd m
In-oldest_first (n ∷ ns) x m = elim (In-insert_oldest n (oldest_first ns) x m) [
  | inl e ↦ inl e
  | inr k ↦ inr (In-oldest_first ns x k)
]

-- A row of the batch is one of the table that is due.
In-batch :
    (now limit : ℕ) (rows : List Notification) (x : Notification)
    → In x (batch now limit rows)
    → In x rows × (is_dispatchable now x ≡ true)
In-batch now limit rows x m =
    (In-filter_iff (is_dispatchable now) rows x).0
      (In-oldest_first (filter (is_dispatchable now) rows) x (In-take_rows limit _ x m))

due-IsFresh :
    (now : ℕ) (n : Notification) → is_dispatchable now n ≡ true → IsWithinTries n → IsFresh n
due-IsFresh now n h (inl l) = l
due-IsFresh now n h (inr (l, k, over)) = absurd (ground (arith, h, over))

-- What the rows record is bounded. A sweep of the dispatcher, whatever the transports answer or throw, keeps
-- each row that a sweep may still come to at two retries at most and at no more recorded attempts than retries,
-- and every other at three and four, as does the requeueing of those that are to be retried. A try whose row
-- cannot be saved leaves nothing in the table, and is not counted.
pub dispatch_pending-IsWithinTries :
    (t : Transport) (limit : ℕ) (rows : List Notification)
    → All IsWithinTries rows
    → All IsWithinTries (dispatch_pending t limit rows).1
      × All IsWithinTries (retry_failed limit rows).1
unfolding dispatch_pending retry_failed
dispatch_pending-IsWithinTries t limit rows a = (
  dispatch_all-IsWithinTries t (batch t.now limit rows) _ rows
      (All-of_In (batch t.now limit rows) (λ n m.
        let (k, due) = In-batch t.now limit rows n m in
        due-IsFresh t.now n due (In_of_All IsWithinTries rows a n k)))
      a,
  All-map IsWithinTries requeue rows (All-imp requeued rows a),
)
  where
    requeued : (n : Notification) → IsWithinTries n → IsWithinTries (requeue n)
    requeued n w = elim (Bool-cases (is_retrying n.status)) [
      | inl h ↦ rw h (again h w)
      | inr h ↦ rw h w
    ]
      where
        again :
            is_retrying n.status ≡ true
            → IsWithinTries n
            → IsWithinTries (record n { status = pending })
        again h (inl l) = inl l
        again h (inr (l, k, over)) = absurd (ground (arith, h, over))
