-- ===== src/Ingestion/Json/Words.antt =====
-- A text has one lower case.
use Prim.Native.Char.{code}
use revenueguard_ai.Common.{
  ◌≡◌, refl, ap, ◌∙◌, String, true, false, Bool-cases, inl, inr, arith, str_eq,
}
use text.Mathlib.TextEquality.{Char-path, eq_iff}
use revenueguard_ai.Ingestion.Json.{is_word}

-- Two words that both are its lower case are one word.
is_word_unique : (s v w : String) → is_word s v ≡ true → is_word s w ≡ true → v ≡ w
unfolding is_word
is_word_unique String.[] String.[] String.[] p q = refl
is_word_unique String.[] String.[] (String.◌∷◌ d w) p q = cc
is_word_unique String.[] (String.◌∷◌ d v) w p q = cc
is_word_unique (String.◌∷◌ c s) String.[] w p q = cc
is_word_unique (String.◌∷◌ c s) (String.◌∷◌ d v) String.[] p q = cc
is_word_unique (String.◌∷◌ c s) (String.◌∷◌ d v) (String.◌∷◌ e w) p q =
    let tails = is_word_unique s v w (ground arith) (ground arith) in
    let heads : code d ≡ code e = ground arith in
    ap (λ c. String.◌∷◌ c v) (Char-path d e heads) ∙ ap (λ l. String.◌∷◌ e l) tails

-- What has one word as its lower case has no other one.
pub is_word-other : (s v w : String) → str_eq v w ≡ false → is_word s v ≡ true → is_word s w ≡ false
is_word-other s v w apart p = elim (Bool-cases (is_word s w)) [
  | inl q ↦
      let same = (eq_iff v w).1 (is_word_unique s v w p q) in absurd (ground (arith, same, apart))
  | inr q ↦ q
]
