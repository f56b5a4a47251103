-- ===== src/Gateway/Downtime.antt =====
-- backend/gateway_health/downtime_monitor.py: DowntimeMonitor. The statistics come from the
-- aggregator.
pub mod Laws
use Prim.Native.String.{◌++◌ as ◌<>◌}
use mathlib.Core.List.{◌++◌}
use Prim.Native.Char.{code}
use revenueguard_ai.Common.{
  ℕ, ◌==◌, max, String, Bool, true, false, not, ◌&&◌, ◌||◌, Option, none, some, List, [], ◌∷◌,
  if◌then◌else◌, str_eq,
}
use revenueguard_ai.Models.{GatewayHealthSnapshot, open_state}
use revenueguard_ai.Gateway.Stats.{GatewayStats}
use revenueguard_ai.Gateway.Breaker.{BreakerConfig}
use revenueguard_ai.Gateway.Breaker.Service.{KeyValueStore, get_health}
use revenueguard_ai.Ingestion.Json.{
  Json, null, text, array, object, Items, no_items, item, Members, no_members, member, lookup,
  or_else,
}

-- Python's `str` of a value, and `str.lower`.
pub record Texts : Type 0 where
  pub str : Json → String
  pub lower : String → String

unfoldable pub starts_with : String → String → Bool
starts_with String.[] s = true
starts_with (String.◌∷◌ c p) String.[] = false
starts_with (String.◌∷◌ c p) (String.◌∷◌ d s) = code c == code d && starts_with p s

-- `part in whole`
unfoldable pub contains : String → String → Bool
contains part String.[] = starts_with part ""
contains part (String.◌∷◌ c s) = starts_with part (String.◌∷◌ c s) || contains part s

-- `" ".join(values)`
abbrev join_with_space : List String → String
join_with_space [] = ""
join_with_space (s ∷ []) = s
join_with_space (s ∷ rest) = s <> (" " <> join_with_space rest)

-- The texts of the values that are not `None`.
abbrev text_of : Texts → Json → List String
text_of py null = []
text_of py j = py.str j ∷ []

abbrev texts_of_items : Texts → Items → List String
texts_of_items py no_items = []
texts_of_items py (item j l) = text_of py j ++ texts_of_items py l

abbrev texts_of_members : Texts → Members → List String
texts_of_members py no_members = []
texts_of_members py (member k j l) = text_of py j ++ texts_of_members py l

abbrev texts_of : Texts → Option Json → List String
texts_of py none = []
texts_of py (some (object m)) = texts_of_members py m
texts_of py (some (array l)) = texts_of_items py l
texts_of py (some j) = text_of py j

abbrev texts_under : Texts → Members → List String → List String
texts_under py payload [] = []
texts_under py payload (k ∷ ks) = texts_of py (lookup k payload) ++ texts_under py payload ks

-- `_flatten_values`
unfoldable pub flatten_values : Texts → Members → List String → String
flatten_values py payload keys = py.lower (join_with_space (texts_under py payload keys))

abbrev is_over : String → Bool
is_over s = str_eq s "resolved" || str_eq s "completed" || str_eq s "inactive" || str_eq s "up"

-- `not value or name.lower() in value or value in name.lower()`
abbrev names : Texts → String → String → Bool
names py value name =
    str_eq value "" || contains (py.lower name) value || contains value (py.lower name)

-- `_downtime_matches`
unfoldable pub downtime_matches : Texts → String → String → Json → Bool
downtime_matches py bank rail (object d) =
    let status =
      py.lower
        (py.str (or_else (lookup "status" d) (or_else (lookup "state" d) (text "active")))) in
    let bank_value =
      flatten_values py d
        ("bank" ∷ "bank_name" ∷ "issuer" ∷ "issuer_name" ∷ "institution" ∷ "provider" ∷ []) in
    let rail_value =
      flatten_values py d
        ("rail" ∷ "method" ∷ "payment_method" ∷ "network" ∷ "instrument" ∷ "gateway" ∷ []) in
    not (is_over status) && names py bank_value bank && names py rail_value rail
downtime_matches py bank rail j = false

-- `_downtime_override`
unfoldable pub downtime_override : GatewayHealthSnapshot → GatewayHealthSnapshot
downtime_override h = record h {
  state = open_state;
  recommended_action = "DEFER";
  retry_after_seconds = max h.retry_after_seconds 600;
  confidence = "HIGH";
}

abbrev pub some_match : (Json → Bool) → List Json → Bool
some_match p [] = false
some_match p (d ∷ ds) = p d || some_match p ds

-- `none` is an exception of the vendor's client.
abbrev pub downtimes_or : Option (List Json) → List Json
downtimes_or none = []
downtimes_or (some l) = l

abbrev pub unified :
    Texts → String → String → Option (List Json) → GatewayHealthSnapshot → GatewayHealthSnapshot
unified py bank rail downtimes internal =
    if some_match (downtime_matches py bank rail) (downtimes_or downtimes)
    then downtime_override internal
    else internal

module _ (redis : KeyValueStore) (cfg : BreakerConfig) (py : Texts) where
  unfoldable pub get_unified_health :
      (read_at now saved_at asked_at : ℕ)
      → String
      → String
      → GatewayStats
      → Option (List Json)
      → redis.Store
      → redis.Store × GatewayHealthSnapshot
  get_unified_health read_at now saved_at asked_at bank rail stats downtimes r =
      let (r', internal) = get_health redis cfg read_at now saved_at asked_at bank rail stats r in
      (r', unified py bank rail downtimes internal)
