-- ===== src/Fanout/Consumer.antt =====
-- services/fanout-worker/internal/consumer/consumer.go: the retries of one Kafka record, the dead
-- letter queues, and the loop that polls and commits. Kafka and the clock are parameters.
pub mod Retries
pub mod Commits
pub mod DeadLetter
use cascade_feed_ranking_eng.Common.{
  wrap64, ℕ, zero, suc, ◌+◌, ℤ, pos, ◌*ℤ◌, ltb, Bool, true, false, ◌||◌, Option, none, some, List,
  [], ◌∷◌, ◌++◌, Bytes, codes, eq_bytes, Error, canceled, permanent, other, Result, ok, err, Exec,
  pure, raise, ◌>>=◌, ◌>>◌, if◌then◌else◌,
}
use cascade_feed_ranking_eng.Common.Decimal.{format_int}

-- kgo.Record and kgo.RecordHeader.
pub record Header : Type 0 where
  pub key : Bytes
  pub value : Bytes

pub record Record : Type 0 where
  pub topic : Bytes
  pub partition : ℤ
  pub offset : ℤ
  pub key : Bytes
  pub value : Bytes
  pub headers : List Header

pub record RecordHandler (W : Type 0) : Type 0 where
  pub process : Bytes → Bytes → Exec W Error (Unit {0})
  pub publish_dlq : Record → Bytes → Error → ℕ → Exec W Error (Unit {0})
  pub sleep : ℤ → Exec W Error (Unit {0})
  pub max_retries : ℕ
  pub backoff : ℤ

unfoldable pub dlq_topic : Bytes → Bytes
dlq_topic topic = topic ++ codes ".dlq"

-- `errors.Is(err, events.ErrPermanent)`
unfoldable pub is_permanent : Error → Bool
is_permanent permanent = true
is_permanent _ = false

unfoldable pub is_canceled : Error → Bool
is_canceled canceled = true
is_canceled _ = false

module _ {W : Type 0} (h : RecordHandler W) where
  unfoldable pub give_up : Record → Error → ℕ → Exec W Error (Unit {0})
  give_up kgo_record error attempts =
      h.publish_dlq kgo_record (dlq_topic kgo_record.topic) error attempts

  -- What one pass of the loop does with the result of `Process`, where `rest` is the next pass.
  unfoldable pub after_attempt :
      Record
      → ℕ
      → Exec W Error (Unit {0})
      → Result Error (Unit {0}) × W
      → Result Error (Unit {0}) × W
  after_attempt kgo_record attempts rest (ok _, w) = (ok tt, w)
  after_attempt kgo_record attempts rest (err e, w) =
      if is_permanent e || ltb h.max_retries attempts
      then give_up kgo_record e attempts w
      else (h.sleep (wrap64 (h.backoff *ℤ pos attempts)) >> rest) w

  -- The loop, from the attempt number `suc attempts` on.
  unfoldable pub handle_from : ℕ → ℕ → Record → Exec W Error (Unit {0})
  handle_from zero attempts kgo_record w = (err other, w)
  handle_from (suc fuel) attempts kgo_record w =
      let rest = handle_from fuel (suc attempts) kgo_record in
      after_attempt kgo_record (suc attempts) rest (h.process kgo_record.topic kgo_record.value w)

  -- The fuel is the number of attempts that `max_retries` admits.
  unfoldable pub handle : Record → Exec W Error (Unit {0})
  handle = handle_from (suc h.max_retries) 0

-- RecordSource, where an empty poll is `none`.
pub record RecordSource (W : Type 0) : Type 0 where
  pub poll : Exec W Error (Option Record)
  pub commit : Record → Exec W Error (Unit {0})
  pub allow_rebalance : W → W

-- What Run returns, or `none` if it has not returned within the polls of its fuel.
abbrev pub Run : Type 0 → Type 0
Run W = W → Option (Result Error (Unit {0})) × W

module _ {W : Type 0} where
  unfoldable pub after_record :
      Run W → Result Error (Unit {0}) × W → Option (Result Error (Unit {0})) × W
  after_record rest (ok _, w) = rest w
  after_record rest (err e, w) = (some (err e), w)

  unfoldable pub after_poll :
      (Option Record → Exec W Error (Unit {0}))
      → Run W
      → Result Error (Option Record) × W
      → Option (Result Error (Unit {0})) × W
  after_poll use_polled rest (ok polled, w) = after_record rest (use_polled polled w)
  after_poll use_polled rest (err e, w) = (some (if is_canceled e then ok tt else err e), w)

module _ {W : Type 0} (source : RecordSource W) (h : RecordHandler W) where
  unfoldable pub handle_polled : Option Record → Exec W Error (Unit {0})
  handle_polled none = pure tt
  handle_polled (some kgo_record) = do
    handle h kgo_record
    source.commit kgo_record
    λ w. (ok tt, source.allow_rebalance w)

  unfoldable pub run : ℕ → Run W
  run zero w = (none, w)
  run (suc polls) w = after_poll handle_polled (run polls) (source.poll w)

-- KafkaPublisher. `produce` is ProduceSync, `now` is time.Now in milliseconds, and `message` is
-- the text of an error.
pub record KafkaPublisher (W : Type 0) : Type 0 where
  pub post_topic : Bytes
  pub follow_topic : Bytes
  pub post_dlq_topic : Bytes
  pub follow_dlq_topic : Bytes
  pub produce : Record → Exec W Error (Unit {0})
  pub now : W → ℤ
  pub message : Error → Bytes

-- The headers that a DLQ record has in addition.
abbrev pub failure_headers : Record → Bytes → ℕ → ℤ → List Header
failure_headers original failure attempts failed_at =
    record { key = codes "x-original-topic"; value = original.topic }
    ∷ record { key = codes "x-original-partition"; value = format_int original.partition }
    ∷ record { key = codes "x-original-offset"; value = format_int original.offset }
    ∷ record { key = codes "x-failure-error"; value = failure }
    ∷ record { key = codes "x-failure-attempts"; value = format_int (pos attempts) }
    ∷ record { key = codes "x-failed-at-unix-ms"; value = format_int failed_at }
    ∷ []

unfoldable pub new_dlq_record : Bytes → Record → Bytes → ℕ → ℤ → Record
new_dlq_record topic original failure attempts failed_at = record {
  topic = topic;
  partition = pos 0;
  offset = pos 0;
  key = original.key;
  value = original.value;
  headers = original.headers ++ failure_headers original failure attempts failed_at;
}

module _ {W : Type 0} (p : KafkaPublisher W) where
  unfoldable pub produce_failed : Bytes → Record → Error → ℕ → Exec W Error (Unit {0})
  produce_failed topic original error attempts w =
      p.produce (new_dlq_record topic original (p.message error) attempts (p.now w)) w

  -- The topic that Handle names is not used.
  unfoldable pub publish_dlq : Record → Bytes → Error → ℕ → Exec W Error (Unit {0})
  publish_dlq original named error attempts =
      if eq_bytes original.topic p.follow_topic
      then produce_failed p.follow_dlq_topic original error attempts
      else if eq_bytes original.topic p.post_topic
      then produce_failed p.post_dlq_topic original error attempts
      else raise other
