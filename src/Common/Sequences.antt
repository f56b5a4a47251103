-- ===== src/Common/Sequences.antt =====
-- Parts of a list: what meets a condition, the first elements and the rest.
use Prim.Native.Nat.{ℕ, zero, suc, ◌+◌, ◌≤◌}
use mathlib.Core.Path.{◌≡◌, refl, ap, sym, ◌∙◌}
use mathlib.Core.Bool.{Bool}
use mathlib.Core.Nat as Nat
use mathlib.Core.List as L
use mathlib.Core.List.{List, [], ◌∷◌, ◌++◌, Perm}
use mathlib.Core.List.Perm
use native.Mathlib.Omega.{arith}
use revenueguard_ai.Common.Tests.{if◌then◌else◌}
use revenueguard_ai.Common.Lists.{length}

-- The library's count of the elements, in native numbers.
abbrev in_native : Nat.ℕ → ℕ
in_native Nat.zero = 0
in_native (Nat.suc n) = suc (in_native n)

module _ {ℓ} {A : Type ℓ} where
  unfoldable pub filter : (A → Bool) → List A → List A
  filter p [] = []
  filter p (x ∷ xs) = let rest = filter p xs in if p x then x ∷ rest else rest

  abbrev pub take : ℕ → List A → List A
  take zero xs = []
  take (suc n) [] = []
  take (suc n) (x ∷ xs) = x ∷ take n xs

  abbrev pub drop : ℕ → List A → List A
  drop zero xs = xs
  drop (suc n) [] = []
  drop (suc n) (x ∷ xs) = drop n xs

  take_eq : {m n : ℕ} (xs : List A) → m ≡ n → take m xs ≡ take n xs
  take_eq xs e = ap (λ k. take k xs) e

  pub append-take : (k n : ℕ) (xs : List A) → take k xs ++ take n (drop k xs) ≡ take (k + n) xs
  append-take zero n xs = take_eq xs (omega arith)
  append-take (suc k) zero [] = sym (take_eq {m = suc k + 0} {n = suc k} [] (omega arith))
  append-take (suc k) (suc n) [] =
      take_eq {m = suc (k + suc n)} {n = suc k + suc n} [] (omega arith)
  append-take (suc k) n (x ∷ xs) =
      ap (λ l. x ∷ l) (append-take k n xs)
      ∙ take_eq {m = suc (k + n)} {n = suc k + n} (x ∷ xs) (omega arith)

  pub take_all : (n : ℕ) (xs : List A) → length xs ≤ n → take n xs ≡ xs
  take_all zero [] h = refl
  take_all zero (x ∷ xs) h = absurd (omega arith)
  take_all (suc n) [] h = refl
  take_all (suc n) (x ∷ xs) h = ap (λ l. x ∷ l) (take_all n xs (omega arith))

  pub length-take : (n : ℕ) (xs : List A) → length (take n xs) ≤ n
  length-take zero xs = omega arith
  length-take (suc n) [] = omega arith
  length-take (suc n) (x ∷ xs) = omega (arith, length-take n xs)

  in_native-length : (xs : List A) → in_native (L.length xs) ≡ length xs
  in_native-length [] = refl
  in_native-length (x ∷ xs) = ap suc (in_native-length xs)

  pub length-perm : {xs ys : List A} → Perm xs ys → length xs ≡ length ys
  length-perm {xs} {ys} p =
      sym (in_native-length xs) ∙ ap in_native (Perm.length-eq p) ∙ in_native-length ys
