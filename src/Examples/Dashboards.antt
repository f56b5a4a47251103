-- ===== src/Examples/Dashboards.antt =====
-- What the API shows of a small table of cases.
use mathlib.Core.List.{Mem}
use revenueguard_ai.Api.Listing.Pages.{HasDistinctMoments}
use revenueguard_ai.Common.{
  ℕ, ◌*◌, ◌≤◌, ◌≡◌, none, some, List, [], ◌∷◌, map, length, All, arith, filter,
}
use mathlib.Core.List.{Perm, Pairwise}
use revenueguard_ai.Common.Int.{pos}
use revenueguard_ai.Models.{recovered, control, treatment}
use revenueguard_ai.Models.Time.{hour_us}
use revenueguard_ai.Database.{RecoveryCase, Database}
use revenueguard_ai.Database.Tables.{by}
use revenueguard_ai.Experiments.Analyzer.{StatisticalTests, rate_of}
use revenueguard_ai.Experiments.Default.{Experiment}
use revenueguard_ai.Api.Views.{case_summary}
use revenueguard_ai.Api.Listing.{listing, matches, matching, list_cases}
use revenueguard_ai.Api.Listing.Pages.{pages_upto, list_cases-pages_upto}
use revenueguard_ai.Api.Metrics.{is_recovered, Metrics, metrics}
use revenueguard_ai.Api.Metrics.Laws.{IsEntry, sum_totals, sum_recoveries, metrics-sums}
use revenueguard_ai.Api.Results.{not_found}
use revenueguard_ai.Api.Detail.{Tables, Shown, shown, not_found as no_case, get_case}
use revenueguard_ai.Api.Detail.Laws.{IsShown, get_case-cases}
use revenueguard_ai.Examples.Texts.{iso}
use revenueguard_ai.Examples.Orders.{by_insertion}
use revenueguard_ai.Examples.Numbers.{whole_numbers}
use revenueguard_ai.Examples.World.{small_case, large_case, database_of}

-- Three cases, one of which is recovered in the treatment arm.
abbrev three : Database
three = record (database_of small_case []) {
  cases =
      small_case
      ∷ record large_case {
        case_id = "REC-2";
        status = recovered;
        experiment_arm = some treatment;
        created_at = hour_us;
        recovered_amount_paise = some 6_000_000;
      }
      ∷ record large_case {
        case_id = "REC-3";
        experiment_arm = some control;
        created_at = 2 * hour_us;
      }
      ∷ [];
}

list_cases-pages_upto_example :
    ((page : ℕ)
      → 1 ≤ page
      → (l : List RecoveryCase) × (list_cases by_insertion iso none (pos page) (pos 2) none three
          ≡ listing (map (case_summary iso) l) page 2 (length (matching none none three)))
        × (length l ≤ 2)
        × ((c : RecoveryCase) → Mem c l → Mem c (matching none none three)))
    × (HasDistinctMoments (λ page. by_insertion) iso none none three 2
        → (all : List RecoveryCase) × (pages_upto (λ page. by_insertion) iso none none three 2 2
            ≡ map (case_summary iso) all)
          × Perm all (matching none none three)
          × Pairwise (λ a b. b.created_at ≤ a.created_at) all)
unfolding matching filter matches
list_cases-pages_upto_example =
    list_cases-pages_upto (λ page. by_insertion) iso none none three 2 2 (omega arith) (omega arith)
      enough
  where
    enough : 3 ≤ 2 * 2
    enough = omega arith

metrics-sums_example :
    (m : Metrics whole_numbers) × (metrics whole_numbers three ≡ some m)
    × (m.total_events ≡ length three.cases)
    × All (IsEntry whole_numbers) m.by_experiment_arm
    × (sum_totals whole_numbers m.by_experiment_arm ≡ m.total_events)
    × (rate_of whole_numbers (sum_recoveries whole_numbers m.by_experiment_arm) m.total_events
        ≡ some m.recovery_rate)
    × (sum_recoveries whole_numbers m.by_experiment_arm ≡ length (filter is_recovered three.cases))
metrics-sums_example = metrics-sums whole_numbers three

abbrev pub tests : StatisticalTests whole_numbers
tests = record {
  chisquare = λ observed expected. (pos 0, pos 1);
  proportions_ztest = λ successes totals. (pos 2, pos 0);
}

abbrev experiments : List Experiment
experiments =
    record { experiment_id = "recovery_agent_v1"; name = "Recovery"; variant_split_pct = 20 } ∷ []

abbrev tables : Tables
tables = record {
  cases = three.cases;
  actions = [];
  audits =
      record {
        id = "A-1";
        created_at = hour_us;
        row = record {
          case_id = "REC-1";
          action_id = none;
          agent_name = "worker";
          step = "start";
          reasoning = "";
          guardrails_applied = [];
        };
      }
      ∷ [];
  health = [];
  approvals = [];
}

get_case-cases_example :
    (by (λ c. c.case_id) "REC-1" tables.cases ≡ none
      → get_case by_insertion iso "REC-1" tables ≡ no_case "Recovery case not found")
    × ((c : RecoveryCase)
        → by (λ c. c.case_id) "REC-1" tables.cases ≡ some c
        → (s : Shown) × (get_case by_insertion iso "REC-1" tables ≡ shown s)
          × IsShown by_insertion iso "REC-1" tables c s)
get_case-cases_example = get_case-cases by_insertion iso "REC-1" tables
