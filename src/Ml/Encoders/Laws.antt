-- ===== src/Ml/Encoders/Laws.antt =====
-- Encoding after training never fails.
use text.Mathlib.TextEquality.{eq_iff}
use text.Mathlib.TextPositions.{eq_refl}
use revenueguard_ai.Common.{
  ℕ, zero, suc, ◌<◌, ◌≡◌, refl, ap, ◌∙◌, inl, inr, String, Bool, true, false, Bool-cases, Option,
  none, some, List, [], ◌∷◌, ◌++◌, map, if◌then◌else◌, str_eq, length, arith,
}
use revenueguard_ai.Ml.Encoders.{
  unknown_label, label_or_unknown, has_label, LabelEncoder, TrainingEvent, reason_label,
  fit_label_encoders, next_position, transform, Encoded, encoded, encoded_or, known_label,
  encode_label,
}

-- The label at a position.
abbrev pub label_at : List String → ℕ → Option String
label_at [] n = none
label_at (l ∷ ls) zero = some l
label_at (l ∷ ls) (suc n) = label_at ls n

-- A label that is there is found, at a position that holds it.
transform-label_at :
    (classes : List String) (label : String)
    → has_label label classes ≡ true
    → (n : ℕ) × (transform classes label ≡ some n)
      × (n < length classes)
      × (label_at classes n ≡ some label)
unfolding transform
transform-label_at [] label h = cc
transform-label_at (l ∷ ls) label h = elim (Bool-cases (str_eq l label)) [
  | inl same ↦ (0, ground arith, omega arith, ap some ((eq_iff l label).0 same))
  | inr other ↦
      let (n, e, below, there) = transform-label_at ls label (ground arith) in
      (
        suc n,
        ap (λ b. if b then some 0 else next_position (transform ls label)) other
            ∙ ap next_position e,
        omega arith,
        there,
      )
]

has_label-append : (label : String) (ls : List String) → has_label label (ls ++ label ∷ []) ≡ true
has_label-append label [] = ground (arith, eq_refl label)
has_label-append label (l ∷ ls) = ground (arith, has_label-append label ls)

has_label-append_left :
    (label : String) (ls ms : List String)
    → has_label label ls ≡ true
    → has_label label (ls ++ ms) ≡ true
has_label-append_left label [] ms h = cc
has_label-append_left label (l ∷ ls) ms h = elim (Bool-cases (str_eq l label)) [
  | inl same ↦ ground arith
  | inr other ↦ ground (arith, has_label-append_left label ls ms (ground arith))
]

module _ (encoder : LabelEncoder) (labels : List String) (value : Option String) where
  abbrev classes : List String
  classes = encoder.fit (labels ++ unknown_label ∷ [])

  known_label-known : has_label (known_label classes value) classes ≡ true
  unfolding known_label
  known_label-known = go (has_label (label_or_unknown value) classes) refl
    where
      go :
          (b : Bool)
          → has_label (label_or_unknown value) classes ≡ b
          → has_label (if b then label_or_unknown value else unknown_label) classes ≡ true
      go true h = h
      go false h =
          encoder.has_label-fit unknown_label (labels ++ unknown_label ∷ [])
          ∙ has_label-append unknown_label labels

  known_label-trained :
      has_label (label_or_unknown value) labels ≡ true
      → known_label classes value ≡ label_or_unknown value
  unfolding known_label
  known_label-trained h = ap (λ b. if b then label_or_unknown value else unknown_label) there
    where
      there : has_label (label_or_unknown value) classes ≡ true
      there =
          encoder.has_label-fit (label_or_unknown value) (labels ++ unknown_label ∷ [])
          ∙ has_label-append_left (label_or_unknown value) labels (unknown_label ∷ []) h

  -- A value is encoded as the position of its label, or of the unknown one.
  abbrev pub IsEncoded : Encoded → Type 0
  IsEncoded c =
      (n : ℕ) × (c ≡ encoded n)
      × (n < length classes)
      × (label_at classes n ≡ some (known_label classes value))
      × (has_label (label_or_unknown value) labels ≡ true
          → label_at classes n ≡ some (label_or_unknown value))

  encode_label-IsEncoded : IsEncoded (encode_label (some classes) value)
  unfolding encode_label
  encode_label-IsEncoded =
      let (n, e, below, there) =
        transform-label_at classes (known_label classes value) known_label-known in
      (n, ap encoded_or e, below, there, λ trained. there ∙ ap some (known_label-trained trained))

-- With the encoders of a training, whatever it was trained on, every bank and every reason is encoded:
-- as a position within the classes, that of the label itself when the training had it, and otherwise
-- that of the label for what is unknown.
pub encode_label-fit_label_encoders :
    (encoder : LabelEncoder) (events : List TrainingEvent) (value : Option String)
    → let encoders = fit_label_encoders encoder events in
      IsEncoded encoder
        (map (λ e. label_or_unknown e.bank_name) events)
        value
        (encode_label (some encoders.bank) value)
      × IsEncoded encoder
          (map reason_label events)
          value
          (encode_label (some encoders.error_reason) value)
unfolding fit_label_encoders
encode_label-fit_label_encoders encoder events value =
    (encode_label-IsEncoded encoder _ value, encode_label-IsEncoded encoder _ value)
