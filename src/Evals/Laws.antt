-- ===== src/Evals/Laws.antt =====
-- What an evaluation makes of each event.
use revenueguard_ai.Common.{
  ℕ, ◌≤◌, ◌≡◌, refl, ap, ◌∙◌, Bool, true, false, String, Option, some, List, [], ◌∷◌, if◌then◌else◌,
  arith,
}
use revenueguard_ai.Models.{
  ActionType, smart_retry, payment_link, nudge_email, nudge_sms, nudge_whatsapp, escalate_human,
  defer, stop, ExperimentArm, control, treatment, GatewayHealthState,
}
use revenueguard_ai.Common.Int.{pos}
use revenueguard_ai.Ingestion.Json.{◌>>=◌}
use revenueguard_ai.Experiments.Baseline.{baseline_decide}
use revenueguard_ai.Experiments.Assignment.{assign_experiment_arm}
use revenueguard_ai.Evals.{
  BatchEvent, EvaluationRow, Health, gives_up, simulate_baseline_recovery, simulate_agent_recovery,
  false_positive_cost, agent_decide, decide_of, row_of, evaluate_event, evaluate_all,
}
use revenueguard_ai.Evals.Metrics.{is_fp}

-- A row keeps the money and the truth of its event. Only a recoverable payment is recovered, with all
-- its money, and never by an action that gives up; a customer of the treatment arm who has opted out is
-- left alone. A false positive costs at most 500, and no other row costs anything.
pub record IsRow (e : BatchEvent) (row : EvaluationRow) : Type 0 where
  pub same_amount : row.amount_paise ≡ e.amount_paise
  pub same_truth : row.actual_recoverable ≡ e.is_recoverable
  pub revenue :
      row.simulated_revenue_paise ≡ (if row.simulated_recovered then row.amount_paise else 0)
  pub cost : row.false_positive_cost_paise ≤ (if is_fp row then 500 else 0)
  pub recoverable : row.simulated_recovered ≡ true → row.actual_recoverable ≡ true
  pub given_up : gives_up row.action_type ≡ true → row.simulated_recovered ≡ false
  pub left_alone : row.arm ≡ treatment → e.opted_out ≡ true → row.action_type ≡ stop

false_positive_cost_bound : (a : ActionType) → false_positive_cost a ≤ 500
unfolding false_positive_cost
false_positive_cost_bound smart_retry = omega arith
false_positive_cost_bound payment_link = omega arith
false_positive_cost_bound nudge_email = omega arith
false_positive_cost_bound nudge_sms = omega arith
false_positive_cost_bound nudge_whatsapp = omega arith
false_positive_cost_bound escalate_human = omega arith
false_positive_cost_bound defer = omega arith
false_positive_cost_bound stop = omega arith

agent_decide-opted_out :
    (e : BatchEvent) (state : GatewayHealthState) (probability : ℕ)
    → e.opted_out ≡ true
    → agent_decide e state probability ≡ stop
unfolding agent_decide
agent_decide-opted_out e state probability h = ground (arith, h)

baseline_recovers-recoverable :
    (e : BatchEvent) (actual : Bool) → simulate_baseline_recovery e actual ≡ true → actual ≡ true
unfolding simulate_baseline_recovery
baseline_recovers-recoverable e true h = refl
baseline_recovers-recoverable e false h = h

baseline-gives_up : gives_up (baseline_decide (pos 0)).action_type ≡ false
unfolding baseline_decide
baseline-gives_up = refl

agent_recovers-recoverable :
    (e : BatchEvent) (a : ActionType) (probability : ℕ) (actual : Bool)
    → simulate_agent_recovery e a probability actual ≡ true
    → actual ≡ true
unfolding simulate_agent_recovery
agent_recovers-recoverable e a probability true h = refl
agent_recovers-recoverable e a probability false h = h

agent_recovers-gives_up :
    (e : BatchEvent) (a : ActionType) (probability : ℕ) (actual : Bool)
    → gives_up a ≡ true
    → simulate_agent_recovery e a probability actual ≡ false
unfolding simulate_agent_recovery
agent_recovers-gives_up e a probability actual h = ground (arith, h)

row_cost :
    (e : BatchEvent) (probability : ℕ) (arm : ExperimentArm) (a : ActionType) (recovered : Bool)
    → (row_of e probability arm a recovered).false_positive_cost_paise
      ≤ (if is_fp (row_of e probability arm a recovered) then 500 else 0)
row_cost e probability arm a recovered = ground (arith, false_positive_cost_bound a)

row_of-IsRow :
    (e : BatchEvent) (state : GatewayHealthState) (probability : ℕ) (arm : ExperimentArm)
    → IsRow e (
        row_of e probability arm
          (decide_of e state probability arm).0
          (decide_of e state probability arm).1)
unfolding decide_of
row_of-IsRow e state probability control = record {
  same_amount = refl;
  same_truth = refl;
  revenue = refl;
  cost =
      row_cost e probability control (baseline_decide (pos 0)).action_type
        (simulate_baseline_recovery e e.is_recoverable);
  recoverable = λ h. baseline_recovers-recoverable e e.is_recoverable h;
  given_up = λ h. cc (h, baseline-gives_up);
  left_alone = λ h o. cc;
}
row_of-IsRow e state probability treatment = record {
  same_amount = refl;
  same_truth = refl;
  revenue = refl;
  cost =
      row_cost e probability treatment (agent_decide e state probability)
        (simulate_agent_recovery e (agent_decide e state probability) probability e.is_recoverable);
  recoverable = λ h. agent_recovers-recoverable e _ probability e.is_recoverable h;
  given_up = λ h. agent_recovers-gives_up e _ probability e.is_recoverable h;
  left_alone = λ h o. agent_decide-opted_out e state probability o;
}

evaluate_event-IsRow :
    (md5 : String → ℕ) (scorer : BatchEvent → Health → ℕ) (e : BatchEvent)
    → (row : EvaluationRow) × (evaluate_event md5 scorer e ≡ some row) × IsRow e row
unfolding evaluate_event assign_experiment_arm
evaluate_event-IsRow md5 scorer e = (_, refl, row_of-IsRow e _ _ _)

-- The rows are those of the events, in their order.
abbrev pub AreRows : List BatchEvent → List EvaluationRow → Type 0
AreRows [] [] = Unit
AreRows [] (row ∷ rows) = ⊥
AreRows (e ∷ es) [] = ⊥
AreRows (e ∷ es) (row ∷ rows) = IsRow e row × AreRows es rows

pub bind-some :
    {A B : Type 0} {m : Option A} {a : A} (f : A → Option B) → m ≡ some a → (m >>= f) ≡ f a
bind-some f e = ap (λ m. m >>= f) e

pub evaluate_all-AreRows :
    (md5 : String → ℕ) (scorer : BatchEvent → Health → ℕ) (es : List BatchEvent)
    → (rows : List EvaluationRow) × (evaluate_all md5 scorer es ≡ some rows) × AreRows es rows
unfolding evaluate_all
evaluate_all-AreRows md5 scorer [] = ([], refl, tt)
evaluate_all-AreRows md5 scorer (e ∷ es) =
    let (row, er, is_row) = evaluate_event-IsRow md5 scorer e in
    let (rows, es_eq, are_rows) = evaluate_all-AreRows md5 scorer es in
    (
      row ∷ rows,
      bind-some (λ row. evaluate_all md5 scorer es >>= λ rows. some (row ∷ rows)) er
          ∙ bind-some (λ rows. some (row ∷ rows)) es_eq,
      (is_row, are_rows),
    )
