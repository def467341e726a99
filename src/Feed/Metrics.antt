-- ===== src/Feed/Metrics.antt =====
-- services/feed-service/internal/observability/metrics.go: what is counted of an answer of GetFeed.
-- Prometheus is a parameter.
use cascade_feed_ranking_eng.Common.{ℕ, ◌==◌, ltb, Bool, Option, none, some, if◌then◌else◌}

-- The counter and the histogram are labelled by whether the cache had every post.
pub record Metrics (W : Type 0) : Type 0 where
  pub request : Bool → W → W
  pub observe_duration : Bool → W → W
  pub add_hits : ℕ → W → W
  pub add_misses : ℕ → W → W

unfoldable pub observe_hydration : {W : Type 0} → Metrics W → ℕ → ℕ → W → W
observe_hydration m hits misses w =
    let hit = misses == 0 in
    let w₁ = m.observe_duration hit (m.request hit w) in
    let w₂ = if ltb 0 hits then m.add_hits hits w₁ else w₁ in
    if ltb 0 misses then m.add_misses misses w₂ else w₂

-- ObserveGetFeed, where the metrics may be nil.
unfoldable pub observe_get_feed : {W : Type 0} → Option (Metrics W) → ℕ → ℕ → W → W
observe_get_feed none hits misses w = w
observe_get_feed (some m) hits misses w = observe_hydration m hits misses w
