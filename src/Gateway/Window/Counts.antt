-- ===== src/Gateway/Window/Counts.antt =====
-- The counts are those of a sliding window.
use revenueguard_ai.Common.{
  ℕ, ◌+◌, ◌-◌, ◌≤◌, ◌≡◌, refl, ◌≢◌, ap, sym, ◌∙◌, inl, inr, ◌⊎◌, String, Bool, true, false,
  Bool-cases, ◌&&◌, List, [], ◌∷◌, if◌then◌else◌, leb, ltb, All, arith,
}
use revenueguard_ai.Gateway.Window.{
  GatewayOutcome, success, technical_decline, business_decline, timeout, Window, five, fifteen,
  sixty, width, window_key, SortedSets, trim, record_window, record_outcome,
}
use revenueguard_ai.Gateway.Window.Keys.{window_key-injective}

-- A moment within the window that ends now.
abbrev pub in_window : ℕ → Window → ℕ → Bool
in_window now w t = ltb now (t + width w)

abbrev pub same_outcome : GatewayOutcome → GatewayOutcome → Bool
same_outcome success success = true
same_outcome technical_decline technical_decline = true
same_outcome business_decline business_decline = true
same_outcome timeout timeout = true
same_outcome _ _ = false

-- An outcome counts for a window and an outcome asked for.
abbrev pub counts : ℕ → Window → GatewayOutcome → ℕ → GatewayOutcome → ℕ
counts now w o t p = if same_outcome p o && in_window now w t then 1 else 0

-- How many of the recorded outcomes, with their moments, are of a kind and within the window.
abbrev pub tally : ℕ → Window → GatewayOutcome → List (ℕ × GatewayOutcome) → ℕ
tally now w o [] = 0
tally now w o ((t, p) ∷ rest) = counts now w o t p + tally now w o rest

same_outcome-cases :
    (o p : GatewayOutcome)
    → ((o ≡ p) × (same_outcome o p ≡ true)) ⊎ ((o ≢ p) × (same_outcome o p ≡ false))
same_outcome-cases success success = inl (refl, refl)
same_outcome-cases success technical_decline = inr ((λ e. cc), refl)
same_outcome-cases success business_decline = inr ((λ e. cc), refl)
same_outcome-cases success timeout = inr ((λ e. cc), refl)
same_outcome-cases technical_decline success = inr ((λ e. cc), refl)
same_outcome-cases technical_decline technical_decline = inl (refl, refl)
same_outcome-cases technical_decline business_decline = inr ((λ e. cc), refl)
same_outcome-cases technical_decline timeout = inr ((λ e. cc), refl)
same_outcome-cases business_decline success = inr ((λ e. cc), refl)
same_outcome-cases business_decline technical_decline = inr ((λ e. cc), refl)
same_outcome-cases business_decline business_decline = inl (refl, refl)
same_outcome-cases business_decline timeout = inr ((λ e. cc), refl)
same_outcome-cases timeout success = inr ((λ e. cc), refl)
same_outcome-cases timeout technical_decline = inr ((λ e. cc), refl)
same_outcome-cases timeout business_decline = inr ((λ e. cc), refl)
same_outcome-cases timeout timeout = inl (refl, refl)

module _ (redis : SortedSets) (bank rail : String) where
  open redis use {Store, count, zadd, zremrangebyscore, expire, zcard}

  pub same_count :
      (r : Store) (k : String) (p q : ℕ → Bool) → ((t : ℕ) → p t ≡ q t) → count r k p ≡ count r k q
  same_count r k p q h = ap (count r k) (λ i t. h t i)

  pub trim-count :
      (now : ℕ) (w : Window) (o : GatewayOutcome) (r : Store) (p : ℕ → Bool)
      → count (trim redis bank rail now w o r) (window_key bank rail w o) p
        ≡ count r (window_key bank rail w o) (λ t. p t && in_window now w t)
  unfolding trim
  trim-count now w o r p = elim (Bool-cases (leb (width w) now)) [
    | inl old ↦ rw old (
        redis.count-zremrangebyscore r (window_key bank rail w o) (now - width w) p
        ∙ same_count r _ _ _ (λ t. ground arith))
    | inr young ↦ rw young (same_count r _ _ _ (λ t. ground arith))
  ]

  pub trim-other :
      (now : ℕ) (w : Window) (o : GatewayOutcome) (r : Store) (k : String) (p : ℕ → Bool)
      → k ≢ window_key bank rail w o
      → count (trim redis bank rail now w o r) k p ≡ count r k p
  unfolding trim
  trim-other now w o r k p h = elim (Bool-cases (leb (width w) now)) [
    | inl old ↦
        rw old (redis.count-zremrangebyscore_ne r (window_key bank rail w o) k (now - width w) p h)
    | inr young ↦ rw young refl
  ]

  -- A record in a window of a moment that is not later than the window's end.
  record_window-count :
      (t now : ℕ) (o : GatewayOutcome) (w : Window) (r : Store)
      → t ≤ now
      → count (record_window redis bank rail t o w r) (window_key bank rail w o) (in_window now w)
        ≡ count r (window_key bank rail w o) (in_window now w)
          + (if in_window now w t then 1 else 0)
  unfolding record_window
  record_window-count t now o w r before =
      redis.count-expire _ _ _ _
      ∙ trim-count t w o _ (in_window now w)
      ∙ same_count _ _ _ _ (λ s. ground arith)
      ∙ redis.count-zadd r (window_key bank rail w o) t (in_window now w)

  record_window-other :
      (t : ℕ) (o : GatewayOutcome) (w : Window) (r : Store) (k : String) (p : ℕ → Bool)
      → k ≢ window_key bank rail w o
      → count (record_window redis bank rail t o w r) k p ≡ count r k p
  unfolding record_window
  record_window-other t o w r k p h =
      redis.count-expire _ _ _ _
      ∙ trim-other t w o _ k p h
      ∙ redis.count-zadd_ne r (window_key bank rail w o) k t p h

  pub key_ne :
      (w v : Window) (o p : GatewayOutcome)
      → (w ≡ v → o ≡ p → ⊥)
      → window_key bank rail w o ≢ window_key bank rail v p
  key_ne w v o p h e =
      let both = window_key-injective bank rail w v o p e in
      h (ap (λ x. x.0) both) (ap (λ x. x.1) both)

  record_other :
      (t : ℕ) (o p : GatewayOutcome) (w : Window) (r : Store) (q : ℕ → Bool)
      → o ≢ p
      → count (record_outcome redis bank rail t p r) (window_key bank rail w o) q
        ≡ count r (window_key bank rail w o) q
  unfolding record_outcome
  record_other t o p w r q h =
      record_window-other t p sixty _ _ q (key_ne w sixty o p (λ e f. h f))
      ∙ record_window-other t p fifteen _ _ q (key_ne w fifteen o p (λ e f. h f))
      ∙ record_window-other t p five r _ q (key_ne w five o p (λ e f. h f))

  record_same :
      (t now : ℕ) (o : GatewayOutcome) (w : Window) (r : Store)
      → t ≤ now
      → count (record_outcome redis bank rail t o r) (window_key bank rail w o) (in_window now w)
        ≡ count r (window_key bank rail w o) (in_window now w)
          + (if in_window now w t then 1 else 0)
  unfolding record_outcome
  record_same t now o five r before =
      record_window-other t o sixty _ _ _ (key_ne five sixty o o (λ e f. cc))
      ∙ record_window-other t o fifteen _ _ _ (key_ne five fifteen o o (λ e f. cc))
      ∙ record_window-count t now o five r before
  record_same t now o fifteen r before =
      record_window-other t o sixty _ _ _ (key_ne fifteen sixty o o (λ e f. cc))
      ∙ record_window-count t now o fifteen _ before
      ∙ ap (λ n. n + (if in_window now fifteen t then 1 else 0))
          (record_window-other t o five r _ _ (key_ne fifteen five o o (λ e f. cc)))
  record_same t now o sixty r before =
      record_window-count t now o sixty _ before
      ∙ ap (λ n. n + (if in_window now sixty t then 1 else 0))
          (record_window-other t o fifteen _ _ _ (key_ne sixty fifteen o o (λ e f. cc))
            ∙ record_window-other t o five r _ _ (key_ne sixty five o o (λ e f. cc)))

  record_outcome-count :
      (t now : ℕ) (o p : GatewayOutcome) (w : Window) (r : Store)
      → t ≤ now
      → count (record_outcome redis bank rail t p r) (window_key bank rail w o) (in_window now w)
        ≡ count r (window_key bank rail w o) (in_window now w) + counts now w o t p
  record_outcome-count t now o p w r before = elim (same_outcome-cases p o) [
    | inl (same, hit) ↦
        ap
          (λ x.
            count (record_outcome redis bank rail t x r) (window_key bank rail w o)
              (in_window now w))
          same
        ∙ record_same t now o w r before
        ∙ ap
            (λ b.
              count r (window_key bank rail w o) (in_window now w)
              + (if b && in_window now w t then 1 else 0))
            (sym hit)
    | inr (apart, miss) ↦
        record_other t o p w r _ (λ e. apart (sym e))
        ∙ (let e : count r (window_key bank rail w o) (in_window now w)
                ≡ count r (window_key bank rail w o) (in_window now w) + 0 =
              omega arith in
            e)
        ∙ ap
            (λ b.
              count r (window_key bank rail w o) (in_window now w)
              + (if b && in_window now w t then 1 else 0))
            (sym miss)
  ]

  -- The outcomes that are recorded, one after the other.
  unfoldable pub record_all : List (ℕ × GatewayOutcome) → Store → Store
  record_all [] r = r
  record_all ((t, p) ∷ rest) r = record_all rest (record_outcome redis bank rail t p r)

  pub record_all-count :
      (now : ℕ) (o : GatewayOutcome) (w : Window) (l : List (ℕ × GatewayOutcome)) (r : Store)
      → All (λ x. x.0 ≤ now) l
      → count (record_all l r) (window_key bank rail w o) (in_window now w)
        ≡ count r (window_key bank rail w o) (in_window now w) + tally now w o l
  unfolding record_all
  record_all-count now o w [] r before = omega arith
  record_all-count now o w ((t, p) ∷ rest) r before =
      let first = record_outcome-count t now o p w r before.0 in
      let others = record_all-count now o w rest (record_outcome redis bank rail t p r) before.1 in
      omega (arith, first, others)
