-- ===== src/Api/Simulate/Laws.antt =====
-- A simulated batch opens the cases that it says, and queues what it counts.
use mathlib.Core.List.{Mem, mem-cons_self, mem-cons_of_mem}
use mathlib.Core.Path.{subst}
use text.Mathlib.TextEquality.{eq_iff}
use revenueguard_ai.Common.{
  ℕ, suc, ◌+◌, ◌≤◌, ◌<◌, ◌≡◌, ◌≢◌, refl, ap, sym, ◌∙◌, inl, inr, String, Bool, true, false, ◌&&◌,
  Bool-cases, Option, none, some, List, [], ◌∷◌, ◌++◌, length, if◌then◌else◌, str_eq, All,
  append-nil, append_assoc, arith,
}
use revenueguard_ai.Common.Int.{pos, leb_ℤ}
use revenueguard_ai.Models.{detected, EventStatus}
use revenueguard_ai.Database.{RecoveryCase, Database}
use revenueguard_ai.Database.Tables.{by, IsUnique, IsUnique-add}
use revenueguard_ai.Ingestion.Json.{◌>>=◌}
use revenueguard_ai.Ingestion.Webhook.{add_case}
use revenueguard_ai.Data.Generator.Events.{Draws, SyntheticEvent}
use revenueguard_ai.Data.Generator.Batch.{Shuffle, generate_batch}
use revenueguard_ai.Data.Generator.Plausible.{is_known, is_plausible}
use revenueguard_ai.Data.Generator.Laws.{generate_batch-plausible}
use revenueguard_ai.Api.Simulate.{
  Rows, case_id_of, simulated_case, simulated_cases, add_cases, enqueue_all, created, refused,
  ids_of, committed, simulate_batch,
}
use revenueguard_ai.Api.Queue.Laws.{unanswered_among}
use revenueguard_ai.Api.Simulate.Queueing.{Queued, enqueue_all-Queued}

-- Another row at the end is not found by another key.
by-append :
    (k : String) (cases : List RecoveryCase) (c : RecoveryCase)
    → by (λ r. r.case_id) k cases ≡ none
    → c.case_id ≢ k
    → by (λ r. r.case_id) k (cases ++ c ∷ []) ≡ none
by-append k [] c h apart = elim (Bool-cases (str_eq c.case_id k)) [
  | inl same ↦ absurd (apart ((eq_iff c.case_id k).0 same))
  | inr other ↦ ground arith
]
by-append k (b ∷ cases) c h apart = elim (Bool-cases (str_eq b.case_id k)) [
  | inl same ↦ absurd (ground arith)
  | inr other ↦ ground (arith, by-append k cases c (ground arith) apart)
]

add_case-fresh :
    (c : RecoveryCase) (db : Database)
    → by (λ r. r.case_id) c.case_id db.cases ≡ none
    → add_case c db ≡ some (record db { cases = db.cases ++ c ∷ [] })
add_case-fresh c db fresh =
    let added : Option RecoveryCase → Option Database =
      λ o. elim o [ none ↦ some (record db { cases = db.cases ++ c ∷ [] }) | some r ↦ none ] in
    ap added fresh

-- The ids of the rows from a position on are new, and none of them is given twice.
abbrev pub AreFresh : Rows → ℕ → ℕ → List RecoveryCase → Type 0
AreFresh rows n count cases =
    ((i : ℕ) → i < count → by (λ r. r.case_id) (case_id_of rows (n + i)) cases ≡ none)
    × ((i j : ℕ) → i < j → j < count → case_id_of rows (n + i) ≢ case_id_of rows (n + j))

simulated_case-id :
    (case_id : String) (created_at : ℕ) (e : SyntheticEvent)
    → (simulated_case case_id created_at e).case_id ≡ case_id
unfolding simulated_case
simulated_case-id case_id created_at e = refl

abbrev pub is_detected : EventStatus → Bool
is_detected detected = true
is_detected _ = false

module _ (rows : Rows) where
  AreFresh-next :
      (n count : ℕ) (c : RecoveryCase) (cases : List RecoveryCase)
      → c.case_id ≡ case_id_of rows n
      → AreFresh rows n (suc count) cases
      → AreFresh rows (suc n) count (cases ++ c ∷ [])
  AreFresh-next n count c cases same fresh = (
    λ i below.
        let e : case_id_of rows (n + suc i) ≡ case_id_of rows (suc n + i) =
          ap (case_id_of rows) (omega arith) in
        let z : case_id_of rows (n + 0) ≡ case_id_of rows n = ap (case_id_of rows) (omega arith) in
        by-append (case_id_of rows (suc n + i)) cases c
          (ap (λ k. by (λ r. r.case_id) k cases) (sym e) ∙ fresh.0 (suc i) (omega arith))
          (λ f. fresh.1 0 (suc i) (omega arith) (omega arith) (z ∙ sym same ∙ f ∙ sym e)),
    λ i j less below f.
        let e : (i : ℕ) → case_id_of rows (n + suc i) ≡ case_id_of rows (suc n + i) =
          λ i. ap (case_id_of rows) (omega arith) in
        fresh.1 (suc i) (suc j) (omega arith) (omega arith) (e i ∙ f ∙ sym (e j)),
  )

  add_cases-fresh :
      (n : ℕ) (events : List SyntheticEvent) (db : Database)
      → AreFresh rows n (length events) db.cases
      → IsUnique (λ r. r.case_id) db.cases
      → (add_cases (simulated_cases rows n events) db
          ≡ some (record db { cases = db.cases ++ simulated_cases rows n events }))
        × IsUnique (λ r. r.case_id) (db.cases ++ simulated_cases rows n events)
  unfolding add_cases simulated_cases
  add_cases-fresh n [] db fresh unique = (
    ap (λ l. some (record db { cases = l })) (sym (append-nil db.cases)),
    subst (λ l. IsUnique (λ r. r.case_id) l) (sym (append-nil db.cases)) unique,
  )
  add_cases-fresh n (e ∷ events) db fresh unique =
      let c = simulated_case (case_id_of rows n) (rows.created_at n) e in
      let rest = simulated_cases rows (suc n) events in
      let same = simulated_case-id (case_id_of rows n) (rows.created_at n) e in
      let new : by (λ r. r.case_id) c.case_id db.cases ≡ none =
        ap (λ k. by (λ r. r.case_id) k db.cases) (same ∙ ap (case_id_of rows) (omega arith))
        ∙ fresh.0 0 (omega arith) in
      let (added, unique') =
        add_cases-fresh (suc n) events (record db { cases = db.cases ++ c ∷ [] })
          (AreFresh-next n (length events) c db.cases same fresh)
          (IsUnique-add (λ r. r.case_id) c db.cases unique new) in
      (
        ap (λ o. o >>= λ db'. add_cases rest db') (add_case-fresh c db new)
            ∙ added
            ∙ ap (λ l. some (record db { cases = l })) (append_assoc db.cases (c ∷ []) rest),
        subst (λ l. IsUnique (λ r. r.case_id) l) (append_assoc db.cases (c ∷ []) rest) unique',
      )

  length-simulated_cases :
      (n : ℕ) (events : List SyntheticEvent)
      → length (simulated_cases rows n events) ≡ length events
  unfolding simulated_cases
  length-simulated_cases n [] = refl
  length-simulated_cases n (e ∷ events) = ap suc (length-simulated_cases (suc n) events)

  -- A case that has just been opened, with a category that the webhook would give it.
  abbrev pub is_new_case : RecoveryCase → Bool
  is_new_case c = is_detected c.status && is_known c.failure_category

  simulated_cases-new :
      (n : ℕ) (events : List SyntheticEvent)
      → ((e : SyntheticEvent) → Mem e events → is_plausible e ≡ true)
      → All (λ c. is_new_case c ≡ true) (simulated_cases rows n events)
  unfolding simulated_cases simulated_case
  simulated_cases-new n [] h = tt
  simulated_cases-new n (e ∷ events) h = (
    ground (arith, h e mem-cons_self),
    simulated_cases-new (suc n) events (λ e m. h e (mem-cons_of_mem _ m)),
  )

-- A batch of 1 to 2,000 events, whose ids are new and all different, opens as many cases as are asked
-- for, after those in the table and with unique ids. Each is detected, and its category is not
-- unknown. The reply lists their ids, and says how many pushes were answered: these ids are put at the
-- head of the queue one after another, each once, and at most once more for each attempt of its own that
-- arrived and raised; an id that is not counted is there for such attempts only. No other id is put there.
pub simulate_batch-created :
    (lower : String → String) (draws : ℕ → Draws) (random : Shuffle) (connected : Bool)
    (rows : Rows) (count : ℕ) (db : Database) (queue : List String)
    → AreFresh rows 0 count db.cases
    → IsUnique (λ r. r.case_id) db.cases
    → 1 ≤ count
    → count ≤ 2_000
    → (new : List RecoveryCase) × (queued : ℕ) × (queue' : List String) × (simulate_batch lower
          draws random connected rows
          (pos count)
          db
          queue
        ≡ record {
          reply = created count queued (ids_of new);
          database = record db { cases = db.cases ++ new };
          queue = queue';
        })
      × (length new ≡ count)
      × IsUnique (λ r. r.case_id) (db.cases ++ new)
      × All (λ c. is_new_case rows c ≡ true) new
      × Queued (λ k. unanswered_among (rows.client k) 0 3) 0 (ids_of new) queue queued queue'
unfolding simulate_batch
simulate_batch-created lower draws random connected rows count db queue fresh unique low high =
    let (size, plausible) = generate_batch-plausible lower draws random count in
    let events = generate_batch lower draws random count in
    let new = simulated_cases rows 0 events in
    let fresh' : AreFresh rows 0 (length events) db.cases =
      subst (λ n. AreFresh rows 0 n db.cases) (sym size) fresh in
    let (added, unique') = add_cases-fresh rows 0 events db fresh' unique in
    let all : length new ≡ count = length-simulated_cases rows 0 events ∙ size in
    let (queued, queue') = enqueue_all connected rows 0 (ids_of new) queue in
    let allowed : (leb_ℤ (pos 1) (pos count) && leb_ℤ (pos count) (pos 2_000)) ≡ true =
      ground arith in
    (
      new,
      queued,
      queue',
      ap
            (λ b.
              if b
              then committed connected rows new db queue (add_cases new db)
              else record { reply = refused; database = db; queue = queue })
            allowed
          ∙ ap (λ o. committed connected rows new db queue o) added
          ∙ ap
              (λ n. record {
                reply = created n queued (ids_of new);
                database = record db { cases = db.cases ++ new };
                queue = queue';
              })
              all,
      all,
      unique',
      simulated_cases-new rows 0 events plausible,
      enqueue_all-Queued connected rows 0 (ids_of new) queue,
    )
