-- ===== src/Worker/Actions.antt =====
-- The actions that the worker records.
use revenueguard_ai.Common.{
  ℕ, String, ◌≡◌, refl, ◌⊎◌, inl, inr, Option, none, some, List, [], ◌∷◌, ◌++◌, Outcome, returned,
  raised, Failure, ap, ◌∙◌,
}
use revenueguard_ai.Models.{RecoveryState, RecoveryAction}
use revenueguard_ai.Database.{RecoveryCase, RecoveryActionRecord, Database}
use revenueguard_ai.Database.Tables.{by, add_missing}
use revenueguard_ai.Agents.External.{External}
use revenueguard_ai.Agents.Graph.{invoke}
use revenueguard_ai.Agents.Graph.Ends.{stopped, waiting, acted, IsLawful}
use revenueguard_ai.Agents.Graph.Safety.{invoke-RunEnd}
use revenueguard_ai.Worker.Persist.{persist_result, all_linked, add_actions, action_row}
use revenueguard_ai.Worker.Process.{
  start_state, record_failure, settle, process_found, process_case,
}
use revenueguard_ai.Worker.Laws.{start_state-fresh, either}
use revenueguard_ai.Worker.Cooldown.{start_state-actions}

-- The recorded actions after a call for a case: as before, or with one more, which is lawful.
pub data Records (ext : External) (case_id : String) (db : Database)
    (rows : List RecoveryActionRecord) : Type 0 where
  unchanged : rows ≡ db.actions → Records ext case_id db rows
  one_more :
      (c : RecoveryCase) (a : RecoveryAction)
      → by (λ r. r.case_id) case_id db.cases ≡ some c
      → rows ≡ db.actions ++ action_row a c.case_id ∷ []
      → IsLawful ext (start_state ext c db) a.action_type
      → Records ext case_id db rows

add_missing-cases :
    {A : Type 0} (column : A → String) (a : A) (rows : List A)
    → (add_missing column a rows ≡ rows) ⊎ (add_missing column a rows ≡ rows ++ a ∷ [])
unfolding add_missing
add_missing-cases {A} column a rows = go (by column (column a) rows)
  where
    go :
        (o : Option A)
        → ((elim o [ none ↦ rows ++ a ∷ [] | some b ↦ rows ]) ≡ rows)
          ⊎ ((elim o [ none ↦ rows ++ a ∷ [] | some b ↦ rows ]) ≡ rows ++ a ∷ [])
    go none = inr refl
    go (some b) = inl refl

module _ (ext : External) (message : Failure → String) (now : ℕ) (case_id : String) (db : Database)
    (c : RecoveryCase) (found : by (λ r. r.case_id) case_id db.cases ≡ some c) where
  none_recorded :
      (result : RecoveryState)
      → result.actions ≡ []
      → Records ext case_id db (persist_result result now c db).actions
  unfolding persist_result add_actions
  none_recorded result h = unchanged (rw (h, add_actions))

  one_recorded :
      (result : RecoveryState) (a : RecoveryAction)
      → result.actions ≡ a ∷ []
      → IsLawful ext (start_state ext c db) a.action_type
      → Records ext case_id db (persist_result result now c db).actions
  unfolding persist_result add_actions
  one_recorded result a h lawful =
      elim (add_missing-cases (λ r. r.idempotency_key) (action_row a c.case_id) db.actions) [
        | inl same ↦ unchanged (rw (h, add_actions) same)
        | inr grown ↦ one_more c a found (rw (h, add_actions) grown) lawful
      ]

  settle-Records :
      (end : Option (Outcome RecoveryState))
      → invoke ext (start_state ext c db) ≡ end
      → Records ext case_id db (settle message now case_id c db end).actions
  settle-Records (some (returned result)) e =
      let (none_yet, fine) = start_state-actions ext c db in
      either (λ d. Records ext case_id db d.actions)
        (all_linked (add_actions c.case_id result.actions db.actions) result.audit_trail)
        (elim (invoke-RunEnd ext (start_state ext c db) result (start_state-fresh ext c db) fine
          e) [
            | stopped same decision ↦ none_recorded result (same ∙ none_yet)
            | waiting r same decision ↦ none_recorded result (same ∙ none_yet)
            | acted a grown decision lawful ↦
                one_recorded result a (grown ∙ ap (λ l. l ++ a ∷ []) none_yet) lawful
          ])
        (unfold record_failure in unchanged refl)
  settle-Records (some (raised x)) e = unfold record_failure in unchanged refl
  settle-Records none e = unchanged refl

-- Processing a case records at most one action, and only a lawful one: permitted by every rule for the
-- case as stored, no `stop`, and above the threshold covered by an approval that was approved and had
-- not expired. The graph's inputs may be anything.
pub process_case-Records :
    (ext : External) (message : Failure → String) (now : ℕ) (case_id : String) (db : Database)
    → Records ext case_id db (process_case ext message now case_id db).actions
unfolding process_case
process_case-Records ext message now case_id db = go (by (λ r. r.case_id) case_id db.cases) refl
  where
    go :
        (o : Option RecoveryCase)
        → by (λ r. r.case_id) case_id db.cases ≡ o
        → Records ext case_id db (process_found ext message now case_id db o).actions
    go none e = unchanged refl
    go (some c) e = settle-Records ext message now case_id db c e _ refl
