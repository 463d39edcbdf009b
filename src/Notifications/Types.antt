-- ===== src/Notifications/Types.antt =====
-- src/notifications/entities/notification.entity.ts. A date is a count of milliseconds.
use meru_core.Base.{ℕ, String, Option, List, Bool, true, false}

pub data NotificationType : Type 0 where
  email sms whatsapp push in_app slack teams webhook : NotificationType

pub data NotificationStatus : Type 0 where
  pending queued sending sent delivered read failed retrying cancelled : NotificationStatus

-- An entry of `deliveryAttempts`.
pub record Attempt : Type 0 where
  pub timestamp : ℕ
  pub channel : NotificationType
  pub success : Bool
  pub error : Option String

-- Of `metadata`, what the sweep reads: `email`, `url` and `customData.url`.
pub record NotificationMetadata : Type 0 where
  pub email : Option String
  pub url : Option String
  pub custom_url : Option String

pub record Notification : Type 0 where
  pub id : String
  pub tenant_id : String
  pub type : NotificationType
  pub status : NotificationStatus
  pub thread_key : Option String
  pub recipient_id : String
  pub recipient_email : Option String
  pub subject : String
  pub content : String
  pub metadata : NotificationMetadata
  pub delivery_attempts : List Attempt
  pub retry_count : ℕ
  pub scheduled_at : Option ℕ
  pub sent_at : Option ℕ
  pub created_at : ℕ

abbrev pub type_text : NotificationType → String
type_text email = "email"
type_text sms = "sms"
type_text whatsapp = "whatsapp"
type_text push = "push"
type_text in_app = "in_app"
type_text slack = "slack"
type_text teams = "teams"
type_text webhook = "webhook"

abbrev pub is_pending : NotificationStatus → Bool
is_pending pending = true
is_pending _ = false

abbrev pub is_queued : NotificationStatus → Bool
is_queued queued = true
is_queued _ = false

abbrev pub is_retrying : NotificationStatus → Bool
is_retrying retrying = true
is_retrying _ = false
