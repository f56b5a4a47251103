-- ===== src/Api/Approvals/Active.antt =====
-- backend/api/main.py with backend/worker.py: the worker's next run uses what was approved.
use mathlib.Core.Path.{subst}
use text.Mathlib.TextEquality.{eq_iff}
use revenueguard_ai.Common.{
  ℕ, ◌≡◌, refl, ◌≢◌, String, true, Bool-cases, Option, none, some, List, [], ◌∷◌, ltb, ◌<◌, ◌≤◌,
  arith, ap, sym, ◌∙◌, All, str_eq, if◌then◌else◌, inl, inr, ltb_iff,
}
use revenueguard_ai.Models.{approved}
use revenueguard_ai.Models.Time.{utc}
use revenueguard_ai.Database.{RecoveryApproval, RecoveryCase, Database}
use revenueguard_ai.Database.Tables.{by, change, change-absent, IsUnique}
use revenueguard_ai.Guardrails.Policy.{has_valid_approval}
use revenueguard_ai.Guardrails.Policy.Approvals.{has_valid_approval-stored}
use revenueguard_ai.Agents.External.{External}
use revenueguard_ai.Worker.Persist.{build_state}
use revenueguard_ai.Worker.Process.{
  pick, at_or_zero, is_approved, eligible, later, latest_approved, active_approval, start_state,
}
use revenueguard_ai.Api.Queue.{RedisClient}
use revenueguard_ai.Api.Approvals.{find_approval, with_status, approve}
use revenueguard_ai.Api.Approvals.Laws.{HasUniqueApprovals, approve_database}

-- The request was approved, if at all, before a moment.
abbrev pub IsEarlier : ℕ → RecoveryApproval → Type 0
IsEarlier now b = is_approved b.status ≡ true → at_or_zero b.approved_at < now

module _ (case_id : String) (now : ℕ) where
  passes :
      (x b : RecoveryApproval)
      → x.approved_at ≡ some now
      → IsEarlier now b
      → pick case_id (some x) b ≡ some x
  passes x b h earlier = ground arith

  latest-kept :
      (x : RecoveryApproval) (rows : List RecoveryApproval)
      → x.approved_at ≡ some now
      → All (IsEarlier now) rows
      → latest_approved case_id (some x) rows ≡ some x
  unfolding latest_approved
  latest-kept x [] h earlier = refl
  latest-kept x (b ∷ rows) h earlier =
      ap (λ best. latest_approved case_id best rows) (passes x b h earlier.0)
      ∙ latest-kept x rows h earlier.1

  abbrev IsOlder : Option RecoveryApproval → Type 0
  IsOlder none = Unit
  IsOlder (some b) = at_or_zero b.approved_at < now

  IsOlder-later :
      (best : Option RecoveryApproval) (b : RecoveryApproval)
      → IsOlder best
      → at_or_zero b.approved_at < now
      → IsOlder (later best b)
  IsOlder-later none b older h = h
  IsOlder-later (some c) b older h =
      elim (Bool-cases (ltb (at_or_zero c.approved_at) (at_or_zero b.approved_at))) [
        | inl less ↦ subst IsOlder (ap (λ t. if t then some b else some c) (sym less)) h
        | inr more ↦ subst IsOlder (ap (λ t. if t then some b else some c) (sym more)) older
      ]

  stays-IsOlder :
      (best : Option RecoveryApproval) (b : RecoveryApproval)
      → IsOlder best
      → IsEarlier now b
      → IsOlder (pick case_id best b)
  stays-IsOlder best b older earlier = elim (Bool-cases (eligible case_id b)) [
    | inl e ↦
        subst IsOlder (ap (λ t. if t then later best b else best) (sym e))
          (IsOlder-later best b older (earlier (ground arith)))
    | inr e ↦ subst IsOlder (ap (λ t. if t then later best b else best) (sym e)) older
  ]

  later-newest :
      (best : Option RecoveryApproval) (x : RecoveryApproval)
      → IsOlder best
      → x.approved_at ≡ some now
      → later best x ≡ some x
  later-newest none x older at = refl
  later-newest (some b) x older at =
      ap (λ t. if t then some x else some b)
        ((ltb_iff (at_or_zero b.approved_at) (at_or_zero x.approved_at)).1
          (subst (λ t. at_or_zero b.approved_at < t) (sym (ap at_or_zero at)) older))

  taken :
      (best : Option RecoveryApproval) (x : RecoveryApproval)
      → IsOlder best
      → x.case_id ≡ case_id
      → x.status ≡ approved
      → x.approved_at ≡ some now
      → pick case_id best x ≡ some x
  taken best x older owner status at =
      ap (λ t. if t then later best x else best) is_eligible ∙ later-newest best x older at
    where
      is_eligible : eligible case_id x ≡ true
      is_eligible = ground (arith, eq_iff x.case_id case_id)

  found_here :
      (approval_id : String) (a b : RecoveryApproval) (rows : List RecoveryApproval)
      → str_eq b.approval_id approval_id ≡ true
      → by (λ c. c.approval_id) approval_id (b ∷ rows) ≡ some a
      → b ≡ a
  found_here approval_id a b rows same h = ground arith

  latest-decided :
      (approval_id approved_by : String) (a : RecoveryApproval) (best : Option RecoveryApproval)
      (rows : List RecoveryApproval)
      → a.case_id ≡ case_id
      → IsOlder best
      → All (IsEarlier now) rows
      → IsUnique (λ b. b.approval_id) rows
      → by (λ b. b.approval_id) approval_id rows ≡ some a
      → latest_approved case_id best (
          change
            (λ b. b.approval_id)
            approval_id
            (with_status approved (some approved_by) now)
            rows)
        ≡ some (with_status approved (some approved_by) now a)
  unfolding latest_approved change
  latest-decided approval_id approved_by a best [] owner older earlier u h = cc
  latest-decided approval_id approved_by a best (b ∷ rows) owner older earlier u h =
      let f = with_status approved (some approved_by) now in
      let changed = change (λ c. c.approval_id) approval_id f rows in
      elim (Bool-cases (str_eq b.approval_id approval_id)) [
        | inl same ↦
            let b_is = found_here approval_id a b rows same h in
            let unchanged =
              change-absent (λ c. c.approval_id) approval_id f rows
                (subst (λ k. All (λ c. c.approval_id ≢ k) rows)
                  ((eq_iff b.approval_id approval_id).0 same) u.0) in
            ap (λ t. latest_approved case_id (pick case_id best (if t then f b else b)) changed)
              same
            ∙ ap (λ p. latest_approved case_id p changed)
                (taken best (f b) older (ap (λ c. c.case_id) b_is ∙ owner) refl refl)
            ∙ ap (latest_approved case_id (some (f b))) unchanged
            ∙ latest-kept (f b) rows refl earlier.1
            ∙ ap (λ c. some (f c)) b_is
        | inr other ↦
            ap (λ t. latest_approved case_id (pick case_id best (if t then f b else b)) changed)
              other
            ∙ latest-decided approval_id approved_by a (pick case_id best b) rows owner
                (stays-IsOlder best b older earlier.0) earlier.1 u.1 (ground arith)
      ]

module _ (ext : External) (redis : Option RedisClient) (approval_id approved_by : String)
    (checked now : ℕ) (db : Database) (queue : List String) (a : RecoveryApproval) where
  -- Once a request is approved through the API, the worker's next look at the case finds exactly
  -- this approval, if the requests have a key each and every other approval of the case is older.
  pub active_approval-approve :
      find_approval approval_id db ≡ some a
      → checked ≤ a.expires_at
      → HasUniqueApprovals db
      → All (IsEarlier now) db.approvals
      → active_approval a.case_id
          (approve redis approval_id approved_by checked now db queue).database
        ≡ some (with_status approved (some approved_by) now a)
  unfolding active_approval
  active_approval-approve found early unique earlier =
      ap (λ d. latest_approved a.case_id none d.approvals)
        (approve_database redis approval_id approved_by checked now db queue a found early)
      ∙ latest-decided a.case_id now approval_id approved_by a none db.approvals refl tt earlier
          unique found

  -- What the API approves, the worker uses. If a request is approved in time, the requests have a key
  -- each, and every other approval is older, then in the state in which a run of its case starts, the
  -- approval is valid at exactly the moments before the request lapses (whose text is not empty).
  pub has_valid_approval-approve :
      (c : RecoveryCase) (t : ℕ)
      → ext.iso.to_iso (utc a.expires_at) ≢ ""
      → c.case_id ≡ a.case_id
      → find_approval approval_id db ≡ some a
      → checked ≤ a.expires_at
      → HasUniqueApprovals db
      → All (IsEarlier now) db.approvals
      → has_valid_approval ext.iso t
          (start_state ext c (approve redis approval_id approved_by checked now db queue).database)
        ≡ ltb t a.expires_at
  unfolding start_state build_state
  has_valid_approval-approve c t nonempty owner found early unique earlier =
      let db' = (approve redis approval_id approved_by checked now db queue).database in
      let e =
        ap (λ k. active_approval k db') owner
        ∙ active_approval-approve found early unique earlier in
      has_valid_approval-stored ext.iso t a.expires_at a.approval_id (start_state ext c db')
        nonempty (ap (λ o. (build_state ext.iso c o).approval_status) e)
        (ap (λ o. (build_state ext.iso c o).approval_record) e)
