-- ===== src/Models/Enums.antt =====
-- backend/models/enums.py. A member of an enumeration is a constructor; `.value` is a function.
use revenueguard_ai.Common.{
  String, Bool, true, false, ◌≡◌, refl, Option, none, some, str_eq, if◌then◌else◌,
}

pub data EventType : Type 0 where
  payment_failed subscription_halted subscription_pending : EventType
  checkout_abandoned invoice_expired invoice_overdue : EventType

pub data EventStatus : Type 0 where
  detected triaging diagnosing strategizing executing : EventStatus
  recovered failed escalated stopped : EventStatus

pub data FailureCategory : Type 0 where
  customer systemic business unknown : FailureCategory

pub data FailureSource : Type 0 where
  customer bank gateway network business razorpay unknown : FailureSource

pub data ActionType : Type 0 where
  smart_retry payment_link nudge_email nudge_sms nudge_whatsapp : ActionType
  escalate_human defer stop : ActionType

pub data RecoveryChannel : Type 0 where
  sms email whatsapp in_app : RecoveryChannel

pub data Priority : Type 0 where
  critical high medium low : Priority

pub data GatewayHealthState : Type 0 where
  closed open_state half_open : GatewayHealthState

pub data ExperimentArm : Type 0 where
  control treatment : ExperimentArm

unfoldable pub action_value : ActionType → String
action_value smart_retry = "smart_retry"
action_value payment_link = "payment_link"
action_value nudge_email = "nudge_email"
action_value nudge_sms = "nudge_sms"
action_value nudge_whatsapp = "nudge_whatsapp"
action_value escalate_human = "escalate_human"
action_value defer = "defer"
action_value stop = "stop"

-- `ActionType(text)`, where `none` is its ValueError.
unfoldable pub action_of : String → Option ActionType
action_of s =
    if str_eq s "smart_retry"
    then some smart_retry
    else if str_eq s "payment_link"
    then some payment_link
    else if str_eq s "nudge_email"
    then some nudge_email
    else if str_eq s "nudge_sms"
    then some nudge_sms
    else if str_eq s "nudge_whatsapp"
    then some nudge_whatsapp
    else if str_eq s "escalate_human"
    then some escalate_human
    else if str_eq s "defer"
    then some defer
    else if str_eq s "stop"
    then some stop
    else none

unfoldable pub category_value : FailureCategory → String
category_value FailureCategory.customer = "customer"
category_value systemic = "systemic"
category_value FailureCategory.business = "business"
category_value FailureCategory.unknown = "unknown"

unfoldable pub event_value : EventType → String
event_value payment_failed = "payment_failed"
event_value subscription_halted = "subscription_halted"
event_value subscription_pending = "subscription_pending"
event_value checkout_abandoned = "checkout_abandoned"
event_value invoice_expired = "invoice_expired"
event_value invoice_overdue = "invoice_overdue"

unfoldable pub status_value : EventStatus → String
status_value detected = "detected"
status_value triaging = "triaging"
status_value diagnosing = "diagnosing"
status_value strategizing = "strategizing"
status_value executing = "executing"
status_value recovered = "recovered"
status_value failed = "failed"
status_value escalated = "escalated"
status_value stopped = "stopped"

unfoldable pub arm_value : ExperimentArm → String
arm_value control = "control"
arm_value treatment = "treatment"

unfoldable pub state_value : GatewayHealthState → String
state_value closed = "closed"
state_value open_state = "open"
state_value half_open = "half_open"

-- An action's text is read back as the action.
pub action_of-action_value : (a : ActionType) → action_of (action_value a) ≡ some a
unfolding action_of action_value
action_of-action_value smart_retry = refl
action_of-action_value _ = refl

abbrev pub is_stop : ActionType → Bool
is_stop stop = true
is_stop _ = false
