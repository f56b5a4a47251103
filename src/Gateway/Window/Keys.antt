-- ===== src/Gateway/Window/Keys.antt =====
-- The keys of one bank and rail differ.
use Prim.Native.String.{◌++◌}
use text.Mathlib.TextLemmas.{append_cancel_left}
use revenueguard_ai.Common.{◌≡◌, refl, ap, sym, ◌∙◌, String, str_eq, if◌then◌else◌}
use revenueguard_ai.Gateway.Window.{
  GatewayOutcome, success, technical_decline, business_decline, timeout, Window, five, fifteen,
  sixty, outcome_text, window_text, window_key,
}

abbrev suffix : Window → GatewayOutcome → String
suffix w o = window_text w ++ ("m:" ++ outcome_text o)

read : String → Window × GatewayOutcome
read s =
    if str_eq s (suffix five success)
    then (five, success)
    else if str_eq s (suffix five technical_decline)
    then (five, technical_decline)
    else if str_eq s (suffix five business_decline)
    then (five, business_decline)
    else if str_eq s (suffix five timeout)
    then (five, timeout)
    else if str_eq s (suffix fifteen success)
    then (fifteen, success)
    else if str_eq s (suffix fifteen technical_decline)
    then (fifteen, technical_decline)
    else if str_eq s (suffix fifteen business_decline)
    then (fifteen, business_decline)
    else if str_eq s (suffix fifteen timeout)
    then (fifteen, timeout)
    else if str_eq s (suffix sixty success)
    then (sixty, success)
    else if str_eq s (suffix sixty technical_decline)
    then (sixty, technical_decline)
    else if str_eq s (suffix sixty business_decline)
    then (sixty, business_decline)
    else (sixty, timeout)

read-suffix : (w : Window) (o : GatewayOutcome) → read (suffix w o) ≡ (w, o)
unfolding read
read-suffix five success = refl
read-suffix five technical_decline = refl
read-suffix five business_decline = refl
read-suffix five timeout = refl
read-suffix fifteen success = refl
read-suffix fifteen technical_decline = refl
read-suffix fifteen business_decline = refl
read-suffix fifteen timeout = refl
read-suffix sixty success = refl
read-suffix sixty technical_decline = refl
read-suffix sixty business_decline = refl
read-suffix sixty timeout = refl

module _ (bank rail : String) where
  suffix_of-key :
      (w v : Window) (o p : GatewayOutcome)
      → window_key bank rail w o ≡ window_key bank rail v p
      → suffix w o ≡ suffix v p
  unfolding window_key
  suffix_of-key w v o p e = append_cancel_left ":" _ _ (
      append_cancel_left rail _ _
        (append_cancel_left ":" _ _ (append_cancel_left bank _ _ (append_cancel_left "gw:" _ _ e))))

  -- A key tells its window and its outcome.
  pub window_key-injective :
      (w v : Window) (o p : GatewayOutcome)
      → window_key bank rail w o ≡ window_key bank rail v p
      → ◌≡◌ {A = Window × GatewayOutcome} (w, o) (v, p)
  window_key-injective w v o p e =
      sym (read-suffix w o) ∙ ap read (suffix_of-key w v o p e) ∙ read-suffix v p
