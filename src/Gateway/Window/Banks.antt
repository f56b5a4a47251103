-- ===== src/Gateway/Window/Banks.antt =====
-- backend/gateway_health/aggregator.py: get_all_banks_health and _parse_success_key. The keys that
-- `scan_iter` yields, as texts, are an argument.
use Prim.Native.String.{◌++◌}
use Prim.Native.Char.{Char, code}
use text.Mathlib.TextLemmas.{nil-append, cons-append, append_assoc}
use revenueguard_ai.Common.{
  ℕ, ◌≡◌, refl, ap, ◌∙◌, String, str_eq, Bool, false, ◌&&◌, ◌||◌, ◌==◌, Option, none, some, List,
  [], ◌∷◌, map, All, if◌then◌else◌, arith,
}
use revenueguard_ai.Gateway.Stats.{GatewayStats}
use revenueguard_ai.Gateway.Window.{success, fifteen, SortedSets, window_key}
use revenueguard_ai.Gateway.Window.Rates.{Rates, get_stats}

abbrev pub begin_with : Char → List String → List String
begin_with c [] = String.◌∷◌ c "" ∷ []
begin_with c (part ∷ parts) = String.◌∷◌ c part ∷ parts

-- `text.split(":")`
unfoldable pub split : String → List String
split String.[] = "" ∷ []
split (String.◌∷◌ c s) = let rest = split s in if code c == 58 then "" ∷ rest else begin_with c rest

abbrev pub names_of : List String → Option (String × String)
names_of (gw ∷ bank ∷ rail ∷ window ∷ outcome ∷ []) =
    if str_eq gw "gw" && str_eq window "15m" && str_eq outcome "success"
    then some (bank, rail)
    else none
names_of _ = none

-- `_parse_success_key`
unfoldable pub parse_success_key : String → Option (String × String)
parse_success_key text = names_of (split text)

unfoldable pub has_colon : String → Bool
has_colon String.[] = false
has_colon (String.◌∷◌ c s) = code c == 58 || has_colon s

-- `get_all_banks_health`, at one moment: what one get_stats has cleaned up, no other counts.
module _ (redis : SortedSets) (rates : Rates) (now : ℕ) (r : redis.Store) where
  abbrev pub stats_for : Option (String × String) → List GatewayStats → List GatewayStats
  stats_for none rest = rest
  stats_for (some (bank, rail)) rest =
      if str_eq bank "" || str_eq rail ""
      then rest
      else get_stats redis rates bank rail fifteen now r ∷ rest

  unfoldable pub get_all_banks_health : List String → List GatewayStats
  get_all_banks_health [] = []
  get_all_banks_health (key ∷ keys) = stats_for (parse_success_key key) (get_all_banks_health keys)

split-cons :
    (c : Char) (s : String)
    → (code c == 58) ≡ false
    → split (String.◌∷◌ c s) ≡ begin_with c (split s)
unfolding split
split-cons c s other = ap (λ b. if b then "" ∷ split s else begin_with c (split s)) other

split-colon : (rest : String) → split (":" ++ rest) ≡ "" ∷ split rest
unfolding split
split-colon rest = ap split (cons-append ":" "" rest ∙ ap (String.◌∷◌ ":") (nil-append rest))

has_colon-cons :
    (c : Char) (s : String)
    → has_colon (String.◌∷◌ c s) ≡ false
    → ((code c == 58) ≡ false) × (has_colon s ≡ false)
unfolding has_colon
has_colon-cons c s h = (ground (arith, h), ground (arith, h))

split-append :
    (part rest : String)
    → has_colon part ≡ false
    → split (part ++ (":" ++ rest)) ≡ part ∷ split rest
split-append String.[] rest h = ap split (nil-append (":" ++ rest)) ∙ split-colon rest
split-append (String.◌∷◌ c s) rest h =
    let (other, h') = has_colon-cons c s h in
    ap split (cons-append c s (":" ++ rest))
    ∙ split-cons c (s ++ (":" ++ rest)) other
    ∙ ap (begin_with c) (split-append s rest h')

-- The key of the successes of a bank and a rail without a colon is read back.
pub parse_success_key-window_key :
    (bank rail : String)
    → has_colon bank ≡ false
    → has_colon rail ≡ false
    → parse_success_key (window_key bank rail fifteen success) ≡ some (bank, rail)
unfolding parse_success_key window_key
parse_success_key-window_key bank rail hb hr =
    let last : split (rail ++ ":15m:success") ≡ rail ∷ "15m" ∷ "success" ∷ [] =
      split-append rail "15m:success" hr ∙ ap (λ l. rail ∷ l) (unfold split in refl) in
    let middle : split (bank ++ (":" ++ (rail ++ ":15m:success")))
        ≡ bank ∷ rail ∷ "15m" ∷ "success" ∷ [] =
      split-append bank (rail ++ ":15m:success") hb ∙ ap (λ l. bank ∷ l) last in
    ap names_of (
      ap split ((append_assoc "gw" ":" (bank ++ (":" ++ (rail ++ ":15m:success")))))
      ∙ split-append "gw" (bank ++ (":" ++ (rail ++ ":15m:success"))) (unfold has_colon in refl)
      ∙ ap (λ l. "gw" ∷ l) middle)

-- A name that a key can hold, and that the scan does not leave out.
abbrev pub IsName : String → Type 0
IsName s = (has_colon s ≡ false) × (str_eq s "" ≡ false)

-- Of the keys of the successes of banks and rails whose names are not empty and have no colon, the scan
-- reads every name back, and gives the stats of each, in the order of the keys.
pub get_all_banks_health-window_key :
    (redis : SortedSets) (rates : Rates) (now : ℕ) (r : redis.Store)
    (names : List (String × String))
    → All (λ n. IsName n.0 × IsName n.1) names
    → get_all_banks_health redis rates now r (map (λ n. window_key n.0 n.1 fifteen success) names)
      ≡ map (λ n. get_stats redis rates n.0 n.1 fifteen now r) names
unfolding get_all_banks_health
get_all_banks_health-window_key redis rates now r [] h = refl
get_all_banks_health-window_key redis rates now r ((bank, rail) ∷ names) h =
    let later = get_all_banks_health-window_key redis rates now r names h.1 in
    let rest =
      get_all_banks_health redis rates now r
        (map (λ n. window_key n.0 n.1 fifteen success) names) in
    ap (λ o. stats_for redis rates now r o rest)
      (parse_success_key-window_key bank rail h.0.0.0 h.0.1.0)
    ∙ ap (λ b. if b then rest else get_stats redis rates bank rail fifteen now r ∷ rest) named
    ∙ ap (λ l. get_stats redis rates bank rail fifteen now r ∷ l) later
  where
    named : (str_eq bank "" || str_eq rail "") ≡ false
    named = ground (arith, h.0.0.1, h.0.1.1)
