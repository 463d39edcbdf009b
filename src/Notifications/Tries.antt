-- ===== src/Notifications/Tries.antt =====
-- What one try of src/notifications/notification-dispatch.service.ts makes of the counts of its row.
use meru_core.Base.{
  ℕ, length, length-append, ◌++◌, ◌+++◌, ap, ◌∙◌, ◌≡◌, Bool, false, none, some, Option,
  if◌then◌else◌, suc, ◌≤◌, String, List, [], ◌∷◌, true, refl, ◌||◌, ◌⊎◌, inl, inr, arith, leb,
  Bool-cases, Result, ok, err,
}
use meru_core.Notifications.Types.{
  Attempt, failed, retrying, NotificationType, email, sms, whatsapp, push, in_app, slack, teams,
  webhook, NotificationStatus, Notification, is_pending, is_queued, is_retrying,
}
use meru_core.Notifications.Delivery.{
  record_attempt, refused_with, Transport, PostAnswer, answered, unreachable, posted, post_to,
  after_post, after_mail, mail_to, addressed, delivery,
}
use meru_core.Notifications.Dispatch.{parked_with}

-- A row that the sweeps may still come to.
abbrev pub goes_on : NotificationStatus → Bool
goes_on s = is_pending s || is_queued s || is_retrying s

-- A row that has no more attempts than retries, of which there are at most two.
abbrev pub IsFresh : Notification → Type 0
IsFresh n = (n.retry_count ≤ 2) × (length n.delivery_attempts ≤ n.retry_count)

-- A row that the sweeps may still come to is fresh; another has at most three retries and four attempts.
abbrev pub IsWithinTries : Notification → Type 0
IsWithinTries n =
    IsFresh n
    ⊎ ((n.retry_count ≤ 3) × (length n.delivery_attempts ≤ 4) × (goes_on n.status ≡ false))

pub one_attempt : (xs : List Attempt) (a : Attempt) → length (xs ++ a ∷ []) ≡ suc (length xs)
one_attempt xs a = omega (arith, length-append xs (a ∷ []))

module _ (t : Transport) where
  -- The row as a try leaves it, and as it is if it is then parked.
  abbrev pub StaysWithin : Notification → Type 0
  StaysWithin m = IsWithinTries m × ((reason : String) → IsWithinTries (parked_with t reason m))

  parked-IsWithinTries :
      (m : Notification) (reason : String)
      → m.retry_count ≤ 3
      → length m.delivery_attempts ≤ 3
      → IsWithinTries (parked_with t reason m)
  parked-IsWithinTries m reason l k = inr (
    l,
    omega (
      arith,
      k,
      one_attempt m.delivery_attempts (record {
        timestamp = t.now;
        channel = m.type;
        success = false;
        error = some ("dispatch error: " +++ reason);
      }),
    ),
    refl,
  )

  -- A try that threw, and one that has ended the row.
  thrown : (m : Notification) → IsFresh m → StaysWithin m
  thrown m f = (
    inl f,
    λ reason. parked-IsWithinTries m reason (omega (arith, f.0)) (omega (arith, f.0, f.1)),
  )

  closed_try :
      (m : Notification)
      → m.retry_count ≤ 2
      → length m.delivery_attempts ≤ 3
      → goes_on m.status ≡ false
      → StaysWithin m
  closed_try m l k over = (
    inr (omega (arith, l), omega (arith, k), over),
    λ reason. parked-IsWithinTries m reason (omega (arith, l)) k,
  )

  -- A try that failed, of a row that had `c` retries.
  retried :
      (m : Notification) (c : ℕ)
      → c ≤ 2
      → m.retry_count ≡ suc c
      → length m.delivery_attempts ≤ suc c
      → m.status ≡ (if leb 3 (suc c) then failed else retrying)
      → StaysWithin m
  retried m c l count attempts status = (
    elim (Bool-cases (leb 3 (suc c))) [
      | inl h ↦ inr (
        omega (arith, l, count),
        omega (arith, l, attempts),
        ap goes_on (status ∙ ap (λ (b : Bool). if b then failed else retrying) h),
      )
      | inr h ↦ inl (ground arith, omega (arith, count, attempts))
    ],
    λ reason. parked-IsWithinTries m reason (omega (arith, l, count)) (omega (arith, l, attempts)),
  )

  -- The attempts that a row has with one more.
  recorded :
      (n : Notification) (success : Bool) (error : Option String)
      → IsFresh n
      → length (record_attempt t success error n).delivery_attempts ≤ suc n.retry_count
  recorded n success error f = omega (
    arith,
    f.1,
    one_attempt n.delivery_attempts
        (record { timestamp = t.now; channel = n.type; success = success; error = error }),
  )

  refused-StaysWithin :
      (n : Notification) (reason : String) → IsFresh n → StaysWithin (refused_with t reason n)
  refused-StaysWithin n reason f =
      closed_try (refused_with t reason n) f.0
        (omega (arith, f.0, recorded n false (some reason) f)) refl

  posted-StaysWithin :
      (n : Notification) (a : PostAnswer) → IsFresh n → StaysWithin (after_post t (posted t n a)).0
  posted-StaysWithin n (answered status true) f =
      closed_try (after_post t (posted t n (answered status true))).0 f.0
        (omega (arith, f.0, recorded n true none f)) refl
  posted-StaysWithin n (answered status false) f =
      retried (after_post t (posted t n (answered status false))).0 n.retry_count f.0 refl
        (recorded n false _ f) refl
  posted-StaysWithin n (unreachable message) f =
      retried (after_post t (posted t n (unreachable message))).0 n.retry_count f.0 refl
        (recorded n false _ f) refl

  post_to-StaysWithin :
      (n : Notification) (url : Option String)
      → IsFresh n
      → StaysWithin (after_post t (post_to t n url)).0
  post_to-StaysWithin n none f =
      retried (after_post t (post_to t n none)).0 n.retry_count f.0 refl (recorded n false _ f) refl
  post_to-StaysWithin n (some url) f = posted-StaysWithin n (t.post url n) f

  after_mail-StaysWithin :
      (n : Notification) (r : Result String Bool) → IsFresh n → StaysWithin (after_mail t n r).0
  after_mail-StaysWithin n (err e) f = thrown n f
  after_mail-StaysWithin n (ok true) f =
      closed_try (after_mail t n (ok true)).0 f.0 (omega (arith, f.0, recorded n true none f)) refl
  after_mail-StaysWithin n (ok false) f =
      retried (after_mail t n (ok false)).0 n.retry_count f.0 refl (recorded n false _ f) refl

  mail_to-StaysWithin :
      (n : Notification) (r : Result String (Option String))
      → IsFresh n
      → StaysWithin (mail_to t n r).0
  mail_to-StaysWithin n (err e) f = thrown n f
  mail_to-StaysWithin n (ok none) f = refused-StaysWithin n _ f
  mail_to-StaysWithin n (ok (some a)) f = after_mail-StaysWithin (addressed t a n) _ f

  pub delivery-StaysWithin :
      (k : NotificationType) (n : Notification) → IsFresh n → StaysWithin (delivery t k n).0
  delivery-StaysWithin in_app n f =
      closed_try (delivery t in_app n).0 f.0 (omega (arith, f.0, f.1)) refl
  delivery-StaysWithin webhook n f = post_to-StaysWithin n _ f
  delivery-StaysWithin email n f = mail_to-StaysWithin n _ f
  delivery-StaysWithin sms n f = refused-StaysWithin n _ f
  delivery-StaysWithin whatsapp n f = refused-StaysWithin n _ f
  delivery-StaysWithin push n f = refused-StaysWithin n _ f
  delivery-StaysWithin slack n f = refused-StaysWithin n _ f
  delivery-StaysWithin teams n f = refused-StaysWithin n _ f
