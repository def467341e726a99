-- ===== src/Fanout/Metrics.antt =====
-- services/fanout-worker/internal/observability: metrics.go, the counters around Process, and one
-- round of lag.go. Prometheus and kadm are parameters.
pub mod Instrumented
use cascade_feed_ranking_eng.Common.{
  ℤ, pos, lt_ℤ, ◌-ℤ◌, Bool, true, false, Option, none, some, List, [], ◌∷◌, Bytes, codes, Error,
  Result, ok, err, Exec, Map, if◌then◌else◌,
}
use cascade_feed_ranking_eng.Fanout.{
  PostCreated, PostDeleted, FollowCreated, FollowDeleted, Event, post_created, post_deleted,
  follow_created, follow_deleted,
}
use cascade_feed_ranking_eng.Fanout.Events.{EventJson, parse_post, parse_follow}

-- The counter by topic and result, the histogram of lags, the gauge by topic and partition, and
-- `time.Now().UnixMilli()`.
pub record Metrics (W : Type 0) : Type 0 where
  pub processed : Bytes → Bytes → W → W
  pub observe_lag : ℤ → W → W
  pub set_kafka_lag : Bytes → ℤ → ℤ → W → W
  pub now : W → ℤ

-- `case events.PostCreated` and `case events.PostDeleted`.
unfoldable pub post_time : Event → Option ℤ
post_time (post_created event) = some event.created_at_unix_ms
post_time (post_deleted event) = some event.deleted_at_unix_ms
post_time (follow_created event) = none
post_time (follow_deleted event) = none

unfoldable pub follow_time : Event → Option ℤ
follow_time (follow_created event) = some event.created_at_unix_ms
follow_time (follow_deleted event) = some event.deleted_at_unix_ms
follow_time (post_created event) = none
follow_time (post_deleted event) = none

-- `if event, err := parse(payload); err == nil { switch ... }`
unfoldable pub time_of : (Event → Option ℤ) → Result Error Event → Option ℤ
time_of case (ok event) = case event
time_of case (err e) = none

-- The time of the first parser that gives one, or 0.
unfoldable pub first_time : Option ℤ → Option ℤ → ℤ
first_time (some created) follow = created
first_time none (some created) = created
first_time none none = pos 0

unfoldable pub event_created_at_unix_ms : EventJson → Bytes → ℤ
event_created_at_unix_ms json payload =
    first_time (time_of post_time (parse_post json payload))
      (time_of follow_time (parse_follow json payload))

module _ {W : Type 0} (m : Metrics W) where
  unfoldable pub record_lag : ℤ → W → W
  record_lag created w =
      let lag = m.now w -ℤ created in
      if lt_ℤ (pos 0) created then m.observe_lag (if lt_ℤ lag (pos 0) then pos 0 else lag) w else w

  unfoldable pub count_result : EventJson → Bytes → Bytes → Result Error (Unit {0}) → W → W
  count_result json topic payload (ok _) w =
      record_lag (event_created_at_unix_ms json payload) (m.processed topic (codes "ok") w)
  count_result json topic payload (err e) w = m.processed topic (codes "error") w

  -- `Process` of the processor that Instrument returns.
  unfoldable pub instrumented :
      EventJson
      → (Bytes → Bytes → Exec W Error (Unit {0}))
      → Bytes
      → Bytes
      → Exec W Error (Unit {0})
  instrumented json inner topic payload w =
      let answer = inner topic payload w in
      (answer.0, count_result json topic payload answer.0 answer.1)

-- Instrument, where the metrics may be nil.
unfoldable pub instrument :
    {W : Type 0}
    → EventJson
    → (Bytes → Bytes → Exec W Error (Unit {0}))
    → Option (Metrics W)
    → Bytes
    → Bytes
    → Exec W Error (Unit {0})
instrument json inner none = inner
instrument json inner (some m) = instrumented m json inner

-- A partition's lag, or the error of reading it.
pub record PartitionLag : Type 0 where
  pub topic : Bytes
  pub partition : ℤ
  pub lag : ℤ
  pub failed : Bool

-- `admin.Lag`: what it says of the group: nothing, an error, or the lags in their order.
pub data GroupLag : Type 0 where
  missing : GroupLag
  failed : GroupLag
  described : List PartitionLag → GroupLag

unfoldable pub set_lags : {W : Type 0} → Metrics W → List PartitionLag → W → W
set_lags m [] w = w
set_lags m (lag ∷ lags) w =
    set_lags m lags (if lag.failed then w else m.set_kafka_lag lag.topic lag.partition lag.lag w)

unfoldable pub record_kafka_lag : {W : Type 0} → Metrics W → Result Error GroupLag → W → W
record_kafka_lag m (err e) w = w
record_kafka_lag m (ok missing) w = w
record_kafka_lag m (ok failed) w = w
record_kafka_lag m (ok (described lags)) w = set_lags m lags w
