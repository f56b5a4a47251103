-- ===== src/Gateway/Window/Sliding.antt =====
-- What get_stats counts after any outcomes were recorded.
use revenueguard_ai.Common.{ℕ, ◌+◌, ◌≤◌, ◌≡◌, ◌≢◌, sym, ◌∙◌, String, true, List, All}
use revenueguard_ai.Gateway.Window.{
  GatewayOutcome, success, technical_decline, business_decline, timeout, Window, window_key,
  SortedSets, trim, cleanup_window, count_of,
}
use revenueguard_ai.Gateway.Window.Counts.{
  in_window, tally, trim-count, trim-other, key_ne, record_all, record_all-count,
}

module _ (redis : SortedSets) (bank rail : String) where
  open redis use {Store, count}

  -- After the trimming of a kind its key holds what is within the window.
  after :
      (now : ℕ) (w : Window) (o p : GatewayOutcome) (r : Store)
      → p ≢ o
      → count (trim redis bank rail now w p r) (window_key bank rail w o) (λ t. true)
        ≡ count r (window_key bank rail w o) (λ t. true)
  after now w o p r h =
      trim-other redis bank rail now w p r (window_key bank rail w o) (λ t. true)
        (key_ne redis bank rail w w o p (λ e f. h (sym f)))

  within :
      (now : ℕ) (w : Window) (o p : GatewayOutcome) (r : Store)
      → p ≢ o
      → count (trim redis bank rail now w p r) (window_key bank rail w o) (in_window now w)
        ≡ count r (window_key bank rail w o) (in_window now w)
  within now w o p r h =
      trim-other redis bank rail now w p r (window_key bank rail w o) (in_window now w)
        (key_ne redis bank rail w w o p (λ e f. h (sym f)))

  here :
      (now : ℕ) (w : Window) (o : GatewayOutcome) (r : Store)
      → count (trim redis bank rail now w o r) (window_key bank rail w o) (λ t. true)
        ≡ count r (window_key bank rail w o) (in_window now w)
  here now w o r = trim-count redis bank rail now w o r (λ t. true)

  count_of-window :
      (now : ℕ) (w : Window) (o : GatewayOutcome) (r : Store)
      → count_of redis bank rail now w r o ≡ count r (window_key bank rail w o) (in_window now w)
  unfolding count_of cleanup_window
  count_of-window now w success r =
      redis.zcard-count _ _
      ∙ after now w success timeout _ (λ e. cc)
      ∙ after now w success business_decline _ (λ e. cc)
      ∙ after now w success technical_decline _ (λ e. cc)
      ∙ here now w success r
  count_of-window now w technical_decline r =
      redis.zcard-count _ _
      ∙ after now w technical_decline timeout _ (λ e. cc)
      ∙ after now w technical_decline business_decline _ (λ e. cc)
      ∙ here now w technical_decline _
      ∙ within now w technical_decline success r (λ e. cc)
  count_of-window now w business_decline r =
      redis.zcard-count _ _
      ∙ after now w business_decline timeout _ (λ e. cc)
      ∙ here now w business_decline _
      ∙ within now w business_decline technical_decline _ (λ e. cc)
      ∙ within now w business_decline success r (λ e. cc)
  count_of-window now w timeout r =
      redis.zcard-count _ _
      ∙ here now w timeout _
      ∙ within now w timeout business_decline _ (λ e. cc)
      ∙ within now w timeout technical_decline _ (λ e. cc)
      ∙ within now w timeout success r (λ e. cc)

-- The sliding window is exact: after outcomes were recorded, at moments none of which is later than
-- now, the count of a kind in a window is the number of those of the kind that are younger than the
-- window's width, besides the ones that were in the store before. What recording trims away never
-- matters.
pub count_of-record_all :
    (redis : SortedSets) (bank rail : String) (now : ℕ) (w : Window) (o : GatewayOutcome)
    (l : List (ℕ × GatewayOutcome)) (r : redis.Store)
    → All (λ x. x.0 ≤ now) l
    → count_of redis bank rail now w (record_all redis bank rail l r) o
      ≡ redis.count r (window_key bank rail w o) (in_window now w) + tally now w o l
count_of-record_all redis bank rail now w o l r before =
    count_of-window redis bank rail now w o (record_all redis bank rail l r)
    ∙ record_all-count redis bank rail now o w l r before
