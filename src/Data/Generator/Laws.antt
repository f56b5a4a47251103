-- ===== src/Data/Generator/Laws.antt =====
-- What a batch of generated events is like.
use mathlib.Core.List.{Mem, eq-or-mem_of_mem-cons, not-mem-nil}
use mathlib.Core.List.Perm
use mathlib.Core.Bool.{Bool-set}
use mathlib.Core.Logic.Or
use revenueguard_ai.Common.{
  ℕ, zero, suc, ◌+◌, ◌≡◌, refl, ap, ◌∙◌, String, Bool, true, List, [], ◌∷◌, ◌++◌, length,
  length-append, length-perm, All, arith,
}
use revenueguard_ai.Data.Generator.{Bucket, systemic, customer, subscription, invoice_checkout}
use revenueguard_ai.Data.Generator.Events.{Draws, SyntheticEvent}
use revenueguard_ai.Data.Generator.Batch.{count_in, Shuffle, events_in, events_of, generate_batch}
use revenueguard_ai.Data.Generator.Plausible.{is_plausible, event-plausible}

module _ (lower : String → String) (draws : ℕ → Draws) where
  events_in-plausible :
      (bucket : Bucket) (start n : ℕ)
      → All (λ e. is_plausible e ≡ true) (events_in lower draws bucket start n)
  unfolding events_in
  events_in-plausible bucket start zero = tt
  events_in-plausible bucket start (suc n) =
      (event-plausible lower bucket (draws start), events_in-plausible bucket (suc start) n)

  length-events_in :
      (bucket : Bucket) (start n : ℕ) → length (events_in lower draws bucket start n) ≡ n
  unfolding events_in
  length-events_in bucket start zero = refl
  length-events_in bucket start (suc n) = ap suc (length-events_in bucket (suc start) n)

All-append : {A : Type 0} (P : A → Type 0) (l m : List A) → All P l → All P m → All P (l ++ m)
All-append P [] m h k = k
All-append P (a ∷ l) m h k = (h.0, All-append P l m h.1 k)

All-mem :
    {A : Type 0} (p : A → Bool) (l : List A)
    → All (λ a. p a ≡ true) l
    → (a : A) → Mem a l
    → p a ≡ true
All-mem p [] h a m = absurd (not-mem-nil m)
All-mem p (b ∷ l) h a m =
    Or.elim (Bool-set (p a) true) (eq-or-mem_of_mem-cons m) (λ e. ap p e ∙ h.0)
      (λ later. All-mem p l h.1 a later)

module _ (lower : String → String) (draws : ℕ → Draws) (num_events : ℕ) where
  events_of-plausible : All (λ e. is_plausible e ≡ true) (events_of lower draws num_events)
  unfolding events_of
  events_of-plausible = All-append _ _ _ (events_in-plausible lower draws systemic _ _) (
      All-append _ _ _ (events_in-plausible lower draws customer _ _) (
        All-append _ _ _ (events_in-plausible lower draws subscription _ _)
          (events_in-plausible lower draws invoice_checkout _ _)))

  length-events_of : length (events_of lower draws num_events) ≡ num_events
  unfolding events_of count_in
  length-events_of =
      let a = count_in num_events systemic in
      let b = count_in num_events customer in
      let c = count_in num_events subscription in
      let n = count_in num_events invoice_checkout in
      let l1 = events_in lower draws systemic 0 a in
      let l2 = events_in lower draws customer a b in
      let l3 = events_in lower draws subscription (a + b) c in
      let l4 = events_in lower draws invoice_checkout (a + b + c) n in
      omega (
        arith,
        length-append l1 (l2 ++ (l3 ++ l4)),
        length-append l2 (l3 ++ l4),
        length-append l3 l4,
        length-events_in lower draws systemic 0 a,
        length-events_in lower draws customer a b,
        length-events_in lower draws subscription (a + b) c,
        length-events_in lower draws invoice_checkout (a + b + c) n,
      )

-- A batch has as many events as are asked for, and each is plausible: its amount lies between 100 and
-- 500,000 rupees; no more transactions failed than there were, at most 24; a timeout is one of UPI
-- with an address, and exactly a card has a network; nothing is to be recovered of a customer who
-- opted out or of a business failure; and the webhook's classification of its source and reason is
-- not unknown.
pub generate_batch-plausible :
    (lower : String → String) (draws : ℕ → Draws) (random : Shuffle) (num_events : ℕ)
    → (length (generate_batch lower draws random num_events) ≡ num_events)
      × ((e : SyntheticEvent)
          → Mem e (generate_batch lower draws random num_events)
          → is_plausible e ≡ true)
unfolding generate_batch
generate_batch-plausible lower draws random num_events = (
  length-perm (random.shuffle-perm (events_of lower draws num_events))
      ∙ length-events_of lower draws num_events,
  λ e m.
      All-mem is_plausible (events_of lower draws num_events)
        (events_of-plausible lower draws num_events) e
        ((Perm.mem_iff (random.shuffle-perm (events_of lower draws num_events))).0 m),
)
