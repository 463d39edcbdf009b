-- ===== src/Notifications/Batch.antt =====
-- What a sweep of src/notifications/notification-dispatch.service.ts counts, and what it leaves due.
use meru_core.Base.{
  ℕ, suc, ◌+◌, ◌≤◌, String, Option, none, some, List, [], ◌∷◌, true, false, ◌≡◌, ◌≢◌, refl, sym, ap,
  ◌∙◌, ◌==◌, ◌⊎◌, inl, inr, arith, eq_iff, leb, length, In, All, Bool-cases, Result, ok, err, ◌||◌,
  Bool,
}
use meru_core.Queue.Listing.Paging.{length-take_rows}
use meru_core.Notifications.Types.{
  NotificationType, email, sms, whatsapp, push, in_app, slack, teams, webhook, NotificationStatus,
  Notification, is_pending, is_queued,
}
use meru_core.Notifications.Delivery.{
  Transport, PostAnswer, answered, unreachable, Outcome, was_delivered, was_failed, was_skipped,
  count_retry, posted, post_to, after_post, after_mail, mail_to, addressed, delivery,
}
use meru_core.Notifications.Dispatch.{
  put_notification, parked_with, settled, dispatch_one, Dispatched, count_outcome, dispatch_all,
  is_dispatchable, batch, dispatch_pending,
}

total : Dispatched → ℕ
total d = d.delivered + d.failed + d.skipped

count_outcome-total : (o : Outcome) (d : Dispatched) → total (count_outcome o d) ≡ suc (total d)
unfolding total
count_outcome-total was_delivered d = omega arith
count_outcome-total was_failed d = omega arith
count_outcome-total was_skipped d = omega arith

count_outcome-processed :
    (o : Outcome) (d : Dispatched) → (count_outcome o d).processed ≡ d.processed
count_outcome-processed was_delivered d = refl
count_outcome-processed was_failed d = refl
count_outcome-processed was_skipped d = refl

module _ (t : Transport) where
  dispatch_all-total :
      (ns : List Notification) (d : Dispatched) (rows : List Notification)
      → (total (dispatch_all t ns d rows).0 ≡ total d + length ns)
        × ((dispatch_all t ns d rows).0.processed ≡ d.processed)
  dispatch_all-total [] d rows = (omega arith, refl)
  dispatch_all-total (n ∷ ns) d rows =
      let o = (dispatch_one t n rows).0 in
      let (sum, same) = dispatch_all-total ns (count_outcome o d) (dispatch_one t n rows).1 in
      (omega (arith, sum, count_outcome-total o d), same ∙ count_outcome-processed o d)

  -- Every notification of a sweep's batch is counted once, as delivered, failed or skipped, whatever
  -- the transports answer or throw and whichever saves fail, and there are no more than the limit.
  pub dispatch_pending_counts :
      (limit : ℕ) (rows : List Notification)
      → ((dispatch_pending t limit rows).0.processed
          ≡ (dispatch_pending t limit rows).0.delivered
            + (dispatch_pending t limit rows).0.failed
            + (dispatch_pending t limit rows).0.skipped)
        × ((dispatch_pending t limit rows).0.processed ≤ limit)
  unfolding dispatch_pending total
  dispatch_pending_counts limit rows =
      let first = batch t.now limit rows in
      let fresh : Dispatched = record {
        processed = length first;
        delivered = 0;
        failed = 0;
        skipped = 0;
      } in
      let (sum, same) = dispatch_all-total first fresh rows in
      (omega (arith, sum, same), omega (arith, same, length-take_rows limit _))

  -- A sweep will not come to it again as it is.
  abbrev is_waiting : NotificationStatus → Bool
  is_waiting s = is_pending s || is_queued s

  -- The row that a turn ends with: its own, and not waiting unless the turn has thrown.
  abbrev Ends : Notification → Notification × Result String Outcome → Type 0
  Ends n (m, err e) = m.id ≡ n.id
  Ends n (m, ok o) = (m.id ≡ n.id) × (is_waiting m.status ≡ false)

  count_retry_waits : (n : Notification) → is_waiting (count_retry n).status ≡ false
  count_retry_waits n = elim (Bool-cases (leb 3 (suc n.retry_count))) [
    | inl h ↦ rw h refl
    | inr h ↦ rw h refl
  ]

  posted-Ends : (n : Notification) (a : PostAnswer) → Ends n (after_post t (posted t n a))
  posted-Ends n (answered status true) = (refl, refl)
  posted-Ends n (answered status false) =
      (refl, count_retry_waits (posted t n (answered status false)).0)
  posted-Ends n (unreachable message) =
      (refl, count_retry_waits (posted t n (unreachable message)).0)

  post_to-Ends : (n : Notification) (url : Option String) → Ends n (after_post t (post_to t n url))
  post_to-Ends n none = (refl, count_retry_waits (post_to t n none).0)
  post_to-Ends n (some url) = posted-Ends n (t.post url n)

  after_mail-Ends :
      (n m : Notification) (r : Result String Bool) → m.id ≡ n.id → Ends n (after_mail t m r)
  after_mail-Ends n m (err e) h = h
  after_mail-Ends n m (ok true) h = (h, refl)
  after_mail-Ends n m (ok false) h = (h, count_retry_waits m)

  mail_to-Ends : (n : Notification) (r : Result String (Option String)) → Ends n (mail_to t n r)
  mail_to-Ends n (err e) = refl
  mail_to-Ends n (ok none) = (refl, refl)
  mail_to-Ends n (ok (some a)) = after_mail-Ends n (addressed t a n) _ refl

  delivery-Ends : (k : NotificationType) (n : Notification) → Ends n (delivery t k n)
  delivery-Ends in_app n = (refl, refl)
  delivery-Ends webhook n = post_to-Ends n _
  delivery-Ends email n = mail_to-Ends n _
  delivery-Ends sms n = (refl, refl)
  delivery-Ends whatsapp n = (refl, refl)
  delivery-Ends push n = (refl, refl)
  delivery-Ends slack n = (refl, refl)
  delivery-Ends teams n = (refl, refl)

  -- Every row can be saved.
  abbrev pub SavesAll : Type 0
  SavesAll = (n : Notification) → t.save_error n ≡ none

  In-put_notification :
      (n : Notification) (rows : List Notification) (x : Notification)
      → In x (put_notification n rows)
      → (x ≡ n) ⊎ (In x rows × (x.id ≢ n.id))
  In-put_notification n [] x m = absurd m
  In-put_notification n (k ∷ ks) x m = elim (Bool-cases (k.id == n.id)) [
    | inl h ↦ elim (rw h at m) [ inl e ↦ inl e | inr r ↦ further (In-put_notification n ks x r) ]
    | inr h ↦ elim (rw h at m) [
      | inl e ↦ inr (
        inl e,
        λ same. ground (arith, h, eq_iff k.id n.id, sym (ap (λ (y : Notification). y.id) e) ∙ same),
      )
      | inr r ↦ further (In-put_notification n ks x r)
    ]
  ]
    where
      further : (x ≡ n) ⊎ (In x ks × (x.id ≢ n.id)) → (x ≡ n) ⊎ (In x (k ∷ ks) × (x.id ≢ n.id))
      further (inl e) = inl e
      further (inr (i, d)) = inr (inr i, d)

  settled_puts :
      SavesAll
      → (n m : Notification) (r : Result String Outcome) (rows : List Notification) → Ends n (m, r)
      → (p : Notification) × (p.id ≡ n.id)
        × (is_waiting p.status ≡ false)
        × ((settled t (m, r) rows).1 ≡ put_notification p rows)
  settled_puts saves n m (err e) rows h =
      (parked_with t e m, h, refl, rw (saves (parked_with t e m)) refl)
  settled_puts saves n m (ok o) rows h = (m, h.0, h.1, rw (saves m) refl)

  -- Still a row of before that none of the batch is, or not due.
  abbrev pub IsOldOrDone : List Notification → List Notification → Notification → Type 0
  IsOldOrDone ns rows x = (In x rows × All (λ n. x.id ≢ n.id) ns) ⊎ (is_waiting x.status ≡ false)

  dispatch_all-IsOldOrDone :
      SavesAll
      → (ns : List Notification) (d : Dispatched) (rows : List Notification) (x : Notification)
      → In x (dispatch_all t ns d rows).1
      → IsOldOrDone ns rows x
  unfolding dispatch_one
  dispatch_all-IsOldOrDone saves [] d rows x m = inl (m, tt)
  dispatch_all-IsOldOrDone saves (n ∷ ns) d rows x m =
      let (p, own, done_with, puts) =
        settled_puts saves n (delivery t n.type n).0 (delivery t n.type n).1 rows
          (delivery-Ends n.type n) in
      elim (dispatch_all-IsOldOrDone saves ns _ _ x m) [
        | inl (k, apart) ↦ elim (In-put_notification p rows x (rw puts at k)) [
          | inl e ↦ inr (rw e done_with)
          | inr (i, differs) ↦ inl (i, (λ same. differs (same ∙ sym own), apart))
        ]
        | inr w ↦ inr w
      ]

  -- Where every row can be saved, each row after a sweep is due at no later instant either, being neither
  -- pending nor queued, or it is as it was before and none of the sweep's batch. So a notification that a
  -- sweep has come to, whatever it holds and whatever its transport throws, is due again only when something
  -- else sets it back, and keeps none of its batch waiting.
  pub dispatch_pending_leaves :
      SavesAll
      → (limit : ℕ) (rows : List Notification) (x : Notification)
      → In x (dispatch_pending t limit rows).1
      → ((later : ℕ) → is_dispatchable later x ≡ false)
        ⊎ (In x rows × All (λ n. x.id ≢ n.id) (batch t.now limit rows))
  unfolding dispatch_pending
  dispatch_pending_leaves saves limit rows x m =
      elim (dispatch_all-IsOldOrDone saves (batch t.now limit rows) _ rows x m) [
        | inl old ↦ inr old
        | inr over ↦ inl (λ later. ground (arith, over))
      ]
