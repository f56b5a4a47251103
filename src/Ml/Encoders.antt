-- ===== src/Ml/Encoders.antt =====
-- backend/ml/feature_engineering.py: the label encoders. An encoder is its list of classes, which the
-- fit makes of the labels; how it orders them is left to scikit-learn.
pub mod Laws
use revenueguard_ai.Common.{
  ℕ, zero, suc, ◌+◌, ◌≡◌, String, Bool, true, false, ◌||◌, Option, none, some, List, [], ◌∷◌, ◌++◌,
  map, if◌then◌else◌, str_eq,
}

abbrev pub unknown_label : String
unknown_label = "__unknown__"

-- `str(value or UNKNOWN_LABEL)`, of a text or `None`.
unfoldable pub label_or_unknown : Option String → String
label_or_unknown none = unknown_label
label_or_unknown (some s) = if str_eq s "" then unknown_label else s

-- `label in known_labels`
abbrev pub has_label : String → List String → Bool
has_label label [] = false
has_label label (l ∷ ls) = str_eq l label || has_label label ls

-- LabelEncoder as the program relies on it: its classes are the labels it was fitted on.
pub record LabelEncoder : Type 0 where
  pub fit : List String → List String
  pub has_label-fit :
      (label : String) (labels : List String)
      → has_label label (fit labels) ≡ has_label label labels

pub record Encoders : Type 0 where
  pub bank : List String
  pub error_reason : List String

-- An event's bank, and its reason under either of two keys.
pub record TrainingEvent : Type 0 where
  pub bank_name : Option String
  pub error_reason : Option String
  pub reason : Option String

-- `event.get("error_reason") or event.get("reason") or UNKNOWN_LABEL`
unfoldable pub reason_label : TrainingEvent → String
unfolding label_or_unknown
reason_label e = elim e.error_reason [
  | none ↦ label_or_unknown e.reason
  | some s ↦ if str_eq s "" then label_or_unknown e.reason else s
]

-- `fit_label_encoders`, which also makes the encoders those in force.
unfoldable pub fit_label_encoders : LabelEncoder → List TrainingEvent → Encoders
fit_label_encoders encoder events = record {
  bank = encoder.fit (map (λ e. label_or_unknown e.bank_name) events ++ unknown_label ∷ []);
  error_reason = encoder.fit (map reason_label events ++ unknown_label ∷ []);
}

abbrev pub next_position : Option ℕ → Option ℕ
next_position none = none
next_position (some n) = some (suc n)

-- The position of a label, where `none` is the ValueError of `transform`.
unfoldable pub transform : List String → String → Option ℕ
transform [] label = none
transform (l ∷ ls) label =
    let rest = transform ls label in if str_eq l label then some 0 else next_position rest

pub data EncodeError : Type 0 where
  not_initialized unseen_label : EncodeError

pub data Encoded : Type 0 where
  encoded : ℕ → Encoded
  failed : EncodeError → Encoded

abbrev pub encoded_or : Option ℕ → Encoded
encoded_or none = failed unseen_label
encoded_or (some n) = encoded n

-- The label that is looked up: one that is not known stands for the unknown one.
unfoldable pub known_label : List String → Option String → String
unfolding label_or_unknown
known_label classes value =
    if has_label (label_or_unknown value) classes then label_or_unknown value else unknown_label

-- `_encode_label`, of the encoder under the name, if there is one.
unfoldable pub encode_label : Option (List String) → Option String → Encoded
encode_label none value = failed not_initialized
encode_label (some classes) value = encoded_or (transform classes (known_label classes value))
