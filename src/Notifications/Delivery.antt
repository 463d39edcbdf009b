-- ===== src/Notifications/Delivery.antt =====
-- src/notifications/notification-dispatch.service.ts: `deliverOne` up to its save, `dispatchWebhook`,
-- `resolveEmail` and `recordAttempt`. What a call changes of the row it holds stays changed when it
-- throws.
use meru_core.Base.{
  ℕ, suc, zero, codes, nat_eq, any, String, Option, none, some, List, [], ◌∷◌, ◌++◌, Bool, true,
  false, ◌==◌, ◌&&◌, ◌||◌, if◌then◌else◌, leb, ◌+++◌, Result, ok, err,
}
use meru_core.Notifications.Types.{
  NotificationType, email, sms, whatsapp, push, in_app, slack, teams, webhook, sent, delivered,
  failed, retrying, Notification, type_text,
}

-- What becomes of a request: its status and whether that is one of success, or the message thrown.
pub data PostAnswer : Type 0 where
  answered : ℕ → Bool → PostAnswer
  unreachable : String → PostAnswer

-- What the sweep finds around it: the clock, the mail provider and the receiver of a webhook, each with
-- the message of what it throws, the lookup of a user's address, the lower case of a trimmed text, and the error that a save throws.
pub record Transport : Type 0 where
  pub now : ℕ
  pub send_mail : String → String → String → Result String Bool
  pub post : String → Notification → PostAnswer
  pub email_of_user : String → Result String (Option String)
  pub trim_lower : String → String
  pub print : ℕ → String
  pub save_error : Notification → Option String

pub data Outcome : Type 0 where
  was_delivered was_failed was_skipped : Outcome

abbrev pub record_attempt : Transport → Bool → Option String → Notification → Notification
record_attempt t success error n = record n {
  delivery_attempts =
      n.delivery_attempts
      ++ (record { timestamp = t.now; channel = n.type; success = success; error = error }) ∷ [];
}

-- A text that is there and not empty.
abbrev pub text_or : Option String → Option String → Option String
text_or none other = other
text_or (some s) other = if s == "" then other else some s

abbrev pub is_hex : ℕ → Bool
is_hex c = (leb 48 c && leb c 57) || (leb 65 c && leb c 70) || (leb 97 c && leb c 102)

-- So many hexadecimal digits, and then the rest.
abbrev pub hex_digits : ℕ → List Bool → List Bool
hex_digits zero rest = rest
hex_digits (suc n) rest = true ∷ hex_digits n rest

-- `UUID_PATTERN`: true for a digit, false for a dash
abbrev pub uuid_shape : List Bool
uuid_shape =
    hex_digits 8 (
      false ∷ hex_digits 4 (false ∷ hex_digits 4 (false ∷ hex_digits 4 (false ∷ hex_digits 12 []))))

abbrev pub fits_shape : List Bool → List ℕ → Bool
fits_shape [] [] = true
fits_shape [] (c ∷ cs) = false
fits_shape (b ∷ bs) [] = false
fits_shape (true ∷ bs) (c ∷ cs) = is_hex c && fits_shape bs cs
fits_shape (false ∷ bs) (c ∷ cs) = nat_eq c 45 && fits_shape bs cs

abbrev pub is_uuid : String → Bool
is_uuid s = fits_shape uuid_shape (codes s)

abbrev pub has_at : String → Bool
has_at s = any (λ c. nat_eq c 64) (codes s)

abbrev pub look_up : Transport → String → Result String (Option String)
look_up t id =
    if id == ""
    then ok none
    else if is_uuid id
    then t.email_of_user id
    else ok (if has_at id then some id else none)

unfoldable pub resolve_email : Transport → Notification → Result String (Option String)
resolve_email t n = known (text_or n.metadata.email (text_or n.recipient_email none))
  where
    known : Option String → Result String (Option String)
    known (some address) = ok (some address)
    known none = look_up t n.recipient_id

-- The third try that fails is the last.
abbrev pub count_retry : Notification → Notification
count_retry n = record n {
  retry_count = suc n.retry_count;
  status = if leb 3 (suc n.retry_count) then failed else retrying;
}

abbrev pub sent_now : Transport → Notification → Notification
sent_now t n = record n { status = sent; sent_at = some t.now }

abbrev pub refused_with : Transport → String → Notification → Notification
refused_with t reason n = record (record_attempt t false (some reason) n) { status = failed }

-- `dispatchWebhook`, with whether it has sent
abbrev pub posted : Transport → Notification → PostAnswer → Notification × Bool
posted t n (answered status true) = (record_attempt t true none n, true)
posted t n (answered status false) =
    (record_attempt t false (some ("webhook returned HTTP " +++ t.print status)) n, false)
posted t n (unreachable message) =
    (record_attempt t false (some ("webhook request failed: " +++ message)) n, false)

abbrev pub webhook_url : Notification → Option String
webhook_url n = if_set n.metadata.url
  where
    if_set : Option String → Option String
    if_set (some url) = some url
    if_set none = n.metadata.custom_url

abbrev pub post_to : Transport → Notification → Option String → Notification × Bool
post_to t n none = (
  record_attempt t false (some "webhook notification carries no target url in metadata.url") n,
  false,
)
post_to t n (some url) = posted t n (t.post url n)

abbrev pub dispatch_webhook : Transport → Notification → Notification × Bool
dispatch_webhook t n = post_to t n (text_or (webhook_url n) none)

abbrev pub after_post : Transport → Notification × Bool → Notification × Result String Outcome
after_post t (n, true) = (sent_now t n, ok was_delivered)
after_post t (n, false) = (count_retry n, ok was_failed)

-- The address that was found, and the thread that it belongs to.
abbrev pub addressed : Transport → String → Notification → Notification
addressed t address n = record n {
  recipient_email = some address;
  thread_key = some (type_text n.type +++ ":" +++ t.trim_lower address);
}

abbrev pub after_mail :
    Transport → Notification → Result String Bool → Notification × Result String Outcome
after_mail t n (err thrown) = (n, err thrown)
after_mail t n (ok true) = (record_attempt t true none (sent_now t n), ok was_delivered)
after_mail t n (ok false) =
    (record_attempt t false (some "mail provider did not deliver") (count_retry n), ok was_failed)

-- `!address`
abbrev pub present_address : Result String (Option String) → Result String (Option String)
present_address (err thrown) = err thrown
present_address (ok o) = ok (text_or o none)

abbrev pub mail_to :
    Transport → Notification → Result String (Option String) → Notification × Result String Outcome
mail_to t n (err thrown) = (n, err thrown)
mail_to t n (ok none) = (refused_with t "recipient has no email address" n, ok was_failed)
mail_to t n (ok (some address)) =
    after_mail t (addressed t address n)
      (t.send_mail address (if n.subject == "" then "Notification" else n.subject) n.content)

abbrev pub no_transport : Transport → Notification → Notification × Result String Outcome
no_transport t n = (
  refused_with t ("no transport configured for channel '" +++ type_text n.type +++ "'") n,
  ok was_failed,
)

-- `deliverOne` up to its save: the row as it has changed it, and its result or what was thrown.
abbrev pub delivery :
    Transport → NotificationType → Notification → Notification × Result String Outcome
delivery t in_app n = (record n { status = delivered; sent_at = some t.now }, ok was_skipped)
delivery t webhook n = after_post t (dispatch_webhook t n)
delivery t email n = mail_to t n (present_address (resolve_email t n))
delivery t sms n = no_transport t n
delivery t whatsapp n = no_transport t n
delivery t push n = no_transport t n
delivery t slack n = no_transport t n
delivery t teams n = no_transport t n
