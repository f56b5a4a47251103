-- ===== src/Examples/Features.antt =====
-- The scorer's features of a bank's timeout, and a training on two events.
use revenueguard_ai.Common.{◌≡◌, refl, ◌⊎◌, true, false, ◌&&◌, none, some, List, [], ◌∷◌, map}
use revenueguard_ai.Models.{category_value}
use revenueguard_ai.Ingestion.Json.{is_word}
use revenueguard_ai.Ingestion.Normalizer.{classify_failure}
use revenueguard_ai.Ml.Features.{infer_failure_category}
use revenueguard_ai.Ml.Features.Laws.{is_new_reason, infer_failure_category-classify_failure}
use revenueguard_ai.Ml.Encoders.{
  LabelEncoder, TrainingEvent, label_or_unknown, reason_label, fit_label_encoders, encode_label,
}
use revenueguard_ai.Ml.Encoders.Laws.{IsEncoded, encode_label-fit_label_encoders}

infer_failure_category-classify_failure_example :
    (is_word "Bank" "bank" && is_new_reason "timeout" ≡ false
      → infer_failure_category "Bank" "timeout"
        ≡ category_value (classify_failure "Bank" "timeout"))
    × (is_word "Bank" "bank" && is_new_reason "timeout" ≡ true
        → (category_value (classify_failure "Bank" "timeout") ≡ "unknown")
          × ((infer_failure_category "Bank" "timeout" ≡ "systemic")
              ⊎ (infer_failure_category "Bank" "timeout" ≡ "customer")))
infer_failure_category-classify_failure_example =
    infer_failure_category-classify_failure "Bank" "timeout"

-- The labels as they come.
abbrev in_order : LabelEncoder
in_order = record { fit = λ labels. labels; has_label-fit = λ label labels. refl }

abbrev events : List TrainingEvent
events =
    record { bank_name = some "HDFC"; error_reason = none; reason = some "timeout" }
    ∷ record { bank_name = some ""; error_reason = some "wrong_pin"; reason = none }
    ∷ []

encode_label-fit_label_encoders_example :
    let encoders = fit_label_encoders in_order events in
    IsEncoded in_order
      (map (λ e. label_or_unknown e.bank_name) events)
      (some "HDFC")
      (encode_label (some encoders.bank) (some "HDFC"))
    × IsEncoded in_order
        (map reason_label events)
        (some "HDFC")
        (encode_label (some encoders.error_reason) (some "HDFC"))
encode_label-fit_label_encoders_example =
    encode_label-fit_label_encoders in_order events (some "HDFC")
