-- ===== src/Api/Detail/Laws.antt =====
-- What get_case shows of a case, and of no other one.
use revenueguard_ai.Common.{
  ◌≤◌, ◌≡◌, refl, ap, String, Bool, true, false, Option, none, some, List, ◌∷◌, ◌++◌, map, str_eq,
  find, filter,
}
use mathlib.Core.List.{Perm, Pairwise, Mem}
use mathlib.Core.List.Perm
use revenueguard_ai.Common.Sorting.{IsSorted, sorted-perm, sorted-IsSorted, sorted-stable}
use revenueguard_ai.Models.{action_value, GatewayHealthSnapshot}
use revenueguard_ai.Models.Time.{Iso}
use revenueguard_ai.Database.{RecoveryCase, RecoveryActionRecord, AuditLog, GatewayHealthRecord}
use revenueguard_ai.Database.Tables.{by, by-key}
use revenueguard_ai.Database.Orders.{OrderBy}
use revenueguard_ai.Api.Views.{
  Recorded, iso_text, case_detail, action_dict, audit_dict, approval_dict,
}
use revenueguard_ai.Api.Detail.Search.{find-greatest, find-passes, find-mem, find-none}
use revenueguard_ai.Api.Detail.{
  Tables, TimelineItem, item_key, timeline_items, timeline, created, action, audit, Shown, shown,
  not_found, newest_record, snapshot_or, case_gateway_health, shown_of, reply_of, get_case,
  actions_of, audits_of, approvals_of,
}

-- The history of a case: its creation, some actions and some audits.
abbrev pub history :
    Iso
    → RecoveryCase
    → List (Recorded RecoveryActionRecord)
    → List (Recorded AuditLog)
    → List TimelineItem
history iso c actions audits =
    record { entry = created; at = iso_text iso (some c.created_at) }
    ∷ (map
          (λ a. record {
            entry = action (action_value a.row.action_type);
            at = iso_text iso (some a.created_at);
          })
          actions
        ++ map (λ a. record { entry = audit a.row.step; at = iso_text iso (some a.created_at) })
            audits)

module _ (order : OrderBy) (case_id : String) (db : Tables) where
  -- The health that is shown is that of a record that names the case, which none that names it is
  -- newer than; it is absent when no record names the case.
  pub data IsNewest : Option GatewayHealthSnapshot → Type 0 where
    no_record :
        ((q : Recorded GatewayHealthRecord)
          → Mem q db.health
          → str_eq q.row.case_id case_id ≡ false)
        → IsNewest none
    newest :
        (r : Recorded GatewayHealthRecord)
        → Mem r db.health
        → str_eq r.row.case_id case_id ≡ true
        → ((q : Recorded GatewayHealthRecord)
            → Mem q db.health
            → str_eq q.row.case_id case_id ≡ true
            → q.created_at ≤ r.created_at)
        → IsNewest (some r.row.snapshot_data)

  newest_record-IsNewest : IsNewest (snapshot_or (newest_record order case_id db.health))
  unfolding newest_record
  newest_record-IsNewest = go (find own rows) refl
    where
      own : Recorded GatewayHealthRecord → Bool
      own r = str_eq r.row.case_id case_id

      rows : List (Recorded GatewayHealthRecord)
      rows = order.descending (λ r. r.created_at) db.health

      same : Perm rows db.health
      same = order.descending-perm (λ r. r.created_at) db.health

      go :
          (o : Option (Recorded GatewayHealthRecord)) → find own rows ≡ o → IsNewest (snapshot_or o)
      go none h = no_record (λ q m. find-none own rows h q ((Perm.mem_iff same).1 m))
      go (some r) h =
          newest r ((Perm.mem_iff same).0 (find-mem own rows r h)) (find-passes own rows r h)
            (λ q m p.
              find-greatest (λ r. r.created_at) own rows r
                (order.descending-pairwise (λ r. r.created_at) db.health) h q
                ((Perm.mem_iff same).1 m) p)

  abbrev pub own_actions : List (Recorded RecoveryActionRecord)
  own_actions = filter (λ a. str_eq a.row.case_id case_id) db.actions

  abbrev pub own_audits : List (Recorded AuditLog)
  own_audits = filter (λ a. str_eq a.row.case_id case_id) db.audits

  timeline-perm :
      (iso : Iso) (c : RecoveryCase)
      → Perm
          (timeline iso c (actions_of order case_id db) (audits_of order case_id db))
          (history iso c own_actions own_audits)
  unfolding timeline timeline_items
  timeline-perm iso c = Perm.trans (sorted-perm item_key _) (
      Perm.cons _ (
        Perm.append (Perm.map _ (order.ascending-perm _ own_actions))
          (Perm.map _ (order.ascending-perm _ own_audits))))

-- Rows of a table as they are shown: all of those that are given, each once, in the order of a column.
pub record AreShown {A B : Type 0} (show : A → B) (IsBefore : A → A → Type 0) (own : List A)
    (l : List B) : Type 0 where
  pub rows : List A
  pub views : l ≡ map show rows
  pub whole : Perm rows own
  pub in_order : Pairwise IsBefore rows

-- What is shown of a case that is there: its own actions and audits with the oldest first, its own
-- requests for approval with the latest first; the timeline has the case's creation, its actions and its
-- audits, in the order of their moments, and what has one moment in this order and as the tables give
-- it; the gateway's health is that of the newest record of the case.
pub record IsShown (order : OrderBy) (iso : Iso) (case_id : String) (db : Tables) (c : RecoveryCase)
    (s : Shown) : Type 0 where
  pub own_case : c.case_id ≡ case_id
  pub detail : s.case_detail ≡ case_detail iso c
  pub triage :
      (s.recovery_probability ≡ c.recovery_probability)
      × (s.shap_reason_codes ≡ c.shap_reason_codes)
  pub actions :
      AreShown
        (action_dict iso)
        (λ a b. a.created_at ≤ b.created_at)
        (filter (λ a. str_eq a.row.case_id case_id) db.actions)
        s.actions
  pub audit_trail :
      AreShown
        (audit_dict iso)
        (λ a b. a.created_at ≤ b.created_at)
        (filter (λ a. str_eq a.row.case_id case_id) db.audits)
        s.audit_trail
  pub approvals :
      AreShown
        (approval_dict iso)
        (λ a b. b.requested_at ≤ a.requested_at)
        (filter (λ a. str_eq a.case_id case_id) db.approvals)
        s.approvals
  pub whole :
      Perm s.timeline (history iso c (own_actions order case_id db) (own_audits order case_id db))
  pub in_order : IsSorted item_key s.timeline
  pub stable :
      (k : String)
      → filter (λ i. str_eq (item_key i) k) s.timeline
        ≡ filter
            (λ i. str_eq (item_key i) k)
            (history iso c (actions_of order case_id db) (audits_of order case_id db))
  pub health : IsNewest order case_id db s.gateway_health

shown_of-IsShown :
    (order : OrderBy) (iso : Iso) (case_id : String) (db : Tables) (c : RecoveryCase)
    → by (λ c. c.case_id) case_id db.cases ≡ some c
    → IsShown order iso case_id db c (shown_of order iso case_id db c)
unfolding shown_of timeline timeline_items case_gateway_health
shown_of-IsShown order iso case_id db c found = record {
  own_case = by-key (λ c. c.case_id) case_id db.cases c found;
  detail = refl;
  triage = (refl, refl);
  actions = record {
    rows = actions_of order case_id db;
    views = refl;
    whole = order.ascending-perm _ _;
    in_order = order.ascending-pairwise (λ a. a.created_at) _;
  };
  audit_trail = record {
    rows = audits_of order case_id db;
    views = refl;
    whole = order.ascending-perm _ _;
    in_order = order.ascending-pairwise (λ a. a.created_at) _;
  };
  approvals = record {
    rows = approvals_of order case_id db;
    views = refl;
    whole = order.descending-perm _ _;
    in_order = order.descending-pairwise (λ a. a.requested_at) _;
  };
  whole = unfold timeline in timeline-perm order case_id db iso c;
  in_order = sorted-IsSorted item_key _;
  stable = λ k. sorted-stable item_key k _;
  health = newest_record-IsNewest order case_id db;
}

-- A case that is not there is refused with 404. One that is there is shown with its own rows only,
-- all of them and each once: its actions and audits with the oldest first, its requests for approval
-- with the latest first. The timeline holds its creation, each of its actions and each of its audits once, in the order of
-- the texts of their moments, those of one moment as they were read; and the gateway's health is that
-- of the newest record that names the case, or absent when none does.
pub get_case-cases :
    (order : OrderBy) (iso : Iso) (case_id : String) (db : Tables)
    → (by (λ c. c.case_id) case_id db.cases ≡ none
        → get_case order iso case_id db ≡ not_found "Recovery case not found")
      × ((c : RecoveryCase)
          → by (λ c. c.case_id) case_id db.cases ≡ some c
          → (s : Shown) × (get_case order iso case_id db ≡ shown s)
            × IsShown order iso case_id db c s)
unfolding get_case
get_case-cases order iso case_id db = (
  λ absent. ap (reply_of order iso case_id db) absent,
  λ c found. (
    shown_of order iso case_id db c,
    ap (reply_of order iso case_id db) found,
    shown_of-IsShown order iso case_id db c found,
  ),
)
