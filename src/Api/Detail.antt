-- ===== src/Api/Detail.antt =====
-- backend/api/main.py: get_case, what is shown of one case.
pub mod Search
pub mod Laws
use revenueguard_ai.Common.{
  ℕ, String, Option, none, some, List, [], ◌∷◌, ◌++◌, map, str_eq, find, filter,
}
use revenueguard_ai.Common.Sorting.{sorted}
use revenueguard_ai.Models.{action_value, GatewayHealthSnapshot}
use revenueguard_ai.Models.Time.{Iso}
use revenueguard_ai.Database.{
  RecoveryCase, RecoveryActionRecord, AuditLog, GatewayHealthRecord, RecoveryApproval,
}
use revenueguard_ai.Database.Tables.{by}
use revenueguard_ai.Database.Orders.{OrderBy}
use revenueguard_ai.Api.Views.{
  Recorded, iso_text, CaseDetail, case_detail, ActionView, action_dict, AuditView, audit_dict,
  ApprovalView, approval_dict,
}

-- The tables that the endpoint reads, with the columns that they fill in themselves.
pub record Tables : Type 0 where
  pub cases : List RecoveryCase
  pub actions : List (Recorded RecoveryActionRecord)
  pub audits : List (Recorded AuditLog)
  pub health : List (Recorded GatewayHealthRecord)
  pub approvals : List RecoveryApproval

pub data TimelineEntry : Type 0 where
  created : TimelineEntry
  action : String → TimelineEntry
  audit : String → TimelineEntry

pub record TimelineItem : Type 0 where
  pub entry : TimelineEntry
  pub at : Option String

-- `item["at"] or ""`
abbrev pub item_key : TimelineItem → String
item_key item = elim item.at [ none ↦ "" | some s ↦ s ]

-- The items before they are sorted.
unfoldable pub timeline_items :
    Iso
    → RecoveryCase
    → List (Recorded RecoveryActionRecord)
    → List (Recorded AuditLog)
    → List TimelineItem
timeline_items iso c actions audits =
    record { entry = created; at = iso_text iso (some c.created_at) }
    ∷ (map
          (λ a. record {
            entry = action (action_value a.row.action_type);
            at = iso_text iso (some a.created_at);
          })
          actions
        ++ map (λ a. record { entry = audit a.row.step; at = iso_text iso (some a.created_at) })
            audits)

-- `_timeline`
unfoldable pub timeline :
    Iso
    → RecoveryCase
    → List (Recorded RecoveryActionRecord)
    → List (Recorded AuditLog)
    → List TimelineItem
timeline iso c actions audits = sorted item_key (timeline_items iso c actions audits)

pub record Shown : Type 0 where
  pub case_detail : CaseDetail
  pub recovery_probability : Option ℕ
  pub shap_reason_codes : List String
  pub gateway_health : Option GatewayHealthSnapshot
  pub actions : List ActionView
  pub audit_trail : List AuditView
  pub approvals : List ApprovalView
  pub timeline : List TimelineItem

pub data CaseReply : Type 0 where
  shown : Shown → CaseReply
  not_found : String → CaseReply

abbrev pub actions_of : OrderBy → String → Tables → List (Recorded RecoveryActionRecord)
actions_of order case_id db =
    order.ascending (λ a. a.created_at) (filter (λ a. str_eq a.row.case_id case_id) db.actions)

abbrev pub audits_of : OrderBy → String → Tables → List (Recorded AuditLog)
audits_of order case_id db =
    order.ascending (λ a. a.created_at) (filter (λ a. str_eq a.row.case_id case_id) db.audits)

abbrev pub approvals_of : OrderBy → String → Tables → List RecoveryApproval
approvals_of order case_id db =
    order.descending (λ a. a.requested_at) (filter (λ a. str_eq a.case_id case_id) db.approvals)

abbrev pub snapshot_or : Option (Recorded GatewayHealthRecord) → Option GatewayHealthSnapshot
snapshot_or none = none
snapshot_or (some r) = some r.row.snapshot_data

-- The first record of the case, of all records with the newest first.
unfoldable pub newest_record :
    OrderBy → String → List (Recorded GatewayHealthRecord) → Option (Recorded GatewayHealthRecord)
newest_record order case_id records =
    find (λ r. str_eq r.row.case_id case_id) (order.descending (λ r. r.created_at) records)

-- `_case_gateway_health`
unfoldable pub case_gateway_health :
    OrderBy → String → List (Recorded GatewayHealthRecord) → Option GatewayHealthSnapshot
case_gateway_health order case_id records = snapshot_or (newest_record order case_id records)

-- The dictionary for a case that `_get_case_or_404` has found.
unfoldable pub shown_of : OrderBy → Iso → String → Tables → RecoveryCase → Shown
shown_of order iso case_id db c = record {
  case_detail = case_detail iso c;
  recovery_probability = c.recovery_probability;
  shap_reason_codes = c.shap_reason_codes;
  gateway_health = case_gateway_health order case_id db.health;
  actions = map (action_dict iso) (actions_of order case_id db);
  audit_trail = map (audit_dict iso) (audits_of order case_id db);
  approvals = map (approval_dict iso) (approvals_of order case_id db);
  timeline = timeline iso c (actions_of order case_id db) (audits_of order case_id db);
}

abbrev pub reply_of : OrderBy → Iso → String → Tables → Option RecoveryCase → CaseReply
reply_of order iso case_id db none = not_found "Recovery case not found"
reply_of order iso case_id db (some c) = shown (shown_of order iso case_id db c)

-- `get_case`
unfoldable pub get_case : OrderBy → Iso → String → Tables → CaseReply
get_case order iso case_id db = reply_of order iso case_id db (by (λ c. c.case_id) case_id db.cases)
