-- ===== src/Api/Events/Sockets.antt =====
-- Sets of sockets, and the lists of those that accept a message or do not.
use revenueguard_ai.Common.{
  ℕ, ◌==◌, ◌≡◌, refl, ap, sym, ◌∙◌, inl, inr, Bool, true, not, ◌||◌, ◌&&◌, Bool-cases, List, [],
  ◌∷◌, ◌++◌, filter, arith, append_assoc, All,
}
use revenueguard_ai.Api.Events.{is_in, disconnect, disconnect_all}

is_in-append : (w : ℕ) (l m : List ℕ) → is_in w (l ++ m) ≡ (is_in w l || is_in w m)
is_in-append w [] m = refl
is_in-append w (v ∷ l) m = ground (arith, is_in-append w l m)

-- Dropping several sockets keeps those that are not among them.
filter-filter :
    (p q r : ℕ → Bool)
    → ((w : ℕ) → (p w && q w) ≡ r w)
    → (l : List ℕ) → filter q (filter p l) ≡ filter r l
unfolding filter
filter-filter p q r h [] = refl
filter-filter p q r h (w ∷ l) = ground (arith, h w, filter-filter p q r h l)

filter_all : (p : ℕ → Bool) → ((w : ℕ) → p w ≡ true) → (l : List ℕ) → filter p l ≡ l
unfolding filter
filter_all p h [] = refl
filter_all p h (w ∷ l) = ground (arith, h w, filter_all p h l)

disconnect_all-filter : (ws l : List ℕ) → disconnect_all ws l ≡ filter (λ v. not (is_in v ws)) l
unfolding disconnect
disconnect_all-filter [] l = sym (filter_all (λ v. true) (λ v. refl) l)
disconnect_all-filter (w ∷ ws) l =
    disconnect_all-filter ws (disconnect w l)
    ∙ filter-filter (λ v. not (v == w)) (λ v. not (is_in v ws)) (λ v. not (is_in v (w ∷ ws)))
        (λ v. ground arith) l

All-imp : {P Q : ℕ → Type 0} → ((w : ℕ) → P w → Q w) → (l : List ℕ) → All P l → All Q l
All-imp h [] a = tt
All-imp h (w ∷ l) a = (h w a.0, All-imp h l a.1)

filter-cong : (p q : ℕ → Bool) (l : List ℕ) → All (λ w. p w ≡ q w) l → filter p l ≡ filter q l
unfolding filter
filter-cong p q [] h = refl
filter-cong p q (w ∷ l) h = ground (arith, h.0, filter-cong p q l h.1)

is_in_self : (front l : List ℕ) → All (λ w. is_in w (front ++ l) ≡ true) l
is_in_self front [] = tt
is_in_self front (w ∷ l) = (
  ground (arith, is_in-append w front (w ∷ l)),
  All-imp (λ v h. ap (is_in v) (sym (append_assoc front (w ∷ []) l)) ∙ h) l
      (is_in_self (front ++ w ∷ []) l),
)

pub is_in-filter : (p : ℕ → Bool) (w : ℕ) (l : List ℕ) → is_in w (filter p l) ≡ (is_in w l && p w)
unfolding filter
is_in-filter p w [] = refl
is_in-filter p w (v ∷ l) = elim (Bool-cases (v == w)) [
  | inl same ↦ let e : p v ≡ p w = ap p (ground arith) in ground (arith, e, is_in-filter p w l)
  | inr other ↦ ground (arith, is_in-filter p w l)
]

module _ (accepts : ℕ → Bool) where
  -- Dropping those that did not accept leaves those that did.
  pub drop_failed :
      (l : List ℕ) → disconnect_all (filter (λ w. not (accepts w)) l) l ≡ filter accepts l
  drop_failed l =
      disconnect_all-filter (filter (λ w. not (accepts w)) l) l
      ∙ filter-cong (λ v. not (is_in v (filter (λ w. not (accepts w)) l))) accepts l
          (All-imp (λ w h. ground (arith, h, is_in-filter (λ w. not (accepts w)) w l)) l
            (is_in_self [] l))
