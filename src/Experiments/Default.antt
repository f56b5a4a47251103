-- ===== src/Experiments/Default.antt =====
-- backend/api/main.py: _create_default_experiment, which runs when the API starts.
use revenueguard_ai.Common.{ℕ, String, ◌≡◌, refl, Option, none, some, List, [], ◌∷◌, ◌++◌, ap}
use revenueguard_ai.Database.Tables.{by, add_missing, IsUnique, add_missing-IsUnique, by-added}

-- The columns of an `Experiment` that are set.
pub record Experiment : Type 0 where
  pub experiment_id : String
  pub name : String
  pub variant_split_pct : ℕ

abbrev pub experiment_by : String → List Experiment → Option Experiment
experiment_by = by (λ e. e.experiment_id)

abbrev default_experiment : ℕ → Experiment
default_experiment variant_pct = record {
  experiment_id = "recovery_agent_v1";
  name = "Recovery Agent v1";
  variant_split_pct = variant_pct;
}

unfoldable pub create_default_experiment : ℕ → List Experiment → List Experiment
create_default_experiment variant_pct rows =
    add_missing (λ e. e.experiment_id) (default_experiment variant_pct) rows

-- Afterwards the default experiment is there.
pub create_default_experiment-found :
    (variant_pct : ℕ) (rows : List Experiment)
    → (e : Experiment) × (experiment_by "recovery_agent_v1"
          (create_default_experiment variant_pct rows)
        ≡ some e)
unfolding create_default_experiment add_missing
create_default_experiment-found variant_pct rows = go (experiment_by "recovery_agent_v1" rows) refl
  where
    go :
        (o : Option Experiment)
        → experiment_by "recovery_agent_v1" rows ≡ o
        → (e : Experiment) × (experiment_by "recovery_agent_v1"
              (elim o [ none ↦ rows ++ default_experiment variant_pct ∷ [] | some b ↦ rows ])
            ≡ some e)
    go none h = (_, by-added (λ e. e.experiment_id) (default_experiment variant_pct) rows h)
    go (some e) h = (e, h)

-- Starting the API adds the default experiment when no row has its id, and otherwise leaves the table
-- as it was; a second start changes nothing, whatever percentage is configured then, and ids stay
-- unique.
pub create_default_experiment_once :
    (first second : ℕ) (rows : List Experiment)
    → ((e : Experiment) × (experiment_by "recovery_agent_v1" (create_default_experiment first rows)
          ≡ some e))
      × (create_default_experiment second (create_default_experiment first rows)
          ≡ create_default_experiment first rows)
      × (IsUnique (λ e. e.experiment_id) rows
          → IsUnique (λ e. e.experiment_id) (create_default_experiment first rows))
unfolding create_default_experiment add_missing
create_default_experiment_once first second rows = (
  create_default_experiment-found first rows,
  (let (e, found) = create_default_experiment-found first rows in kept e found),
  add_missing-IsUnique (λ e. e.experiment_id) (default_experiment first) rows,
)
  where
    kept :
        (e : Experiment)
        → experiment_by "recovery_agent_v1" (create_default_experiment first rows) ≡ some e
        → create_default_experiment second (create_default_experiment first rows)
          ≡ create_default_experiment first rows
    kept e found =
        ap
          (λ o. elim o [
            | none ↦ create_default_experiment first rows ++ default_experiment second ∷ []
            | some b ↦ create_default_experiment first rows
          ])
          found
