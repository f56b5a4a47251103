-- ===== src/Api/Listing.antt =====
-- backend/api/main.py: list_cases, a page of the cases that pass the filters, newest first.
pub mod Pages
use revenueguard_ai.Common.{
  ℕ, ◌-◌, ◌*◌, String, Bool, true, ◌&&◌, Option, none, some, List, map, str_eq, if◌then◌else◌,
  length, filter, take, drop,
}
use revenueguard_ai.Common.Int.{ℤ, pos, leb_ℤ, clamp_zero}
use revenueguard_ai.Models.{ExperimentArm, status_value, arm_value}
use revenueguard_ai.Models.Time.{Iso}
use revenueguard_ai.Database.{RecoveryCase, Database}
use revenueguard_ai.Database.Orders.{OrderBy}
use revenueguard_ai.Api.Views.{CaseSummary, case_summary}

-- `refused` is the framework's reply to a parameter outside its bounds.
pub data Listing : Type 0 where
  listing : (items : List CaseSummary) (page page_size total : ℕ) → Listing
  refused : Listing

-- A filter on a column: one that is absent or empty is left out.
abbrev pub passes : Option String → String → Bool
passes none value = true
passes (some s) value = if str_eq s "" then true else str_eq value s

-- A filter on a column that may be null, which equals no text.
abbrev pub passes_arm : Option String → Option ExperimentArm → Bool
passes_arm none arm = true
passes_arm (some s) none = str_eq s ""
passes_arm (some s) (some arm) = passes (some s) (arm_value arm)

unfoldable pub matches : Option String → Option String → RecoveryCase → Bool
matches status experiment_arm c =
    passes status (status_value c.status) && passes_arm experiment_arm c.experiment_arm

unfoldable pub matching : Option String → Option String → Database → List RecoveryCase
matching status experiment_arm db = filter (matches status experiment_arm) db.cases

-- `.order_by(RecoveryCase.created_at.desc())`
abbrev pub newest_first : OrderBy → Option String → Option String → Database → List RecoveryCase
newest_first order status experiment_arm db =
    order.descending (λ c. c.created_at) (matching status experiment_arm db)

-- `.offset((page - 1) * page_size).limit(page_size)`
abbrev pub page_of {ℓ} : {A : Type ℓ} → ℕ → ℕ → List A → List A
page_of page page_size rows = take page_size (drop ((page - 1) * page_size) rows)

unfoldable pub list_cases :
    OrderBy → Iso → Option String → ℤ → ℤ → Option String → Database → Listing
list_cases order iso status page page_size experiment_arm db =
    if leb_ℤ (pos 1) page && leb_ℤ (pos 1) page_size && leb_ℤ page_size (pos 100)
    then listing
        (map (case_summary iso) (
          page_of (clamp_zero page) (clamp_zero page_size)
            (newest_first order status experiment_arm db)))
        (clamp_zero page) (clamp_zero page_size) (length (matching status experiment_arm db))
    else refused
