-- ===== src/Examples/Queues.antt =====
-- A Kafka topic with records to handle, whose world holds what was polled, committed and published.
use cascade_feed_ranking_eng.Common.{
  ℤ, pos, Option, none, some, List, [], ◌∷◌, ◌++◌, Bytes, codes, eq_bytes, Error, permanent,
  canceled, Result, ok, err, if◌then◌else◌, ◌≡◌, refl, arith,
}
use cascade_feed_ranking_eng.Fanout.Consumer.{
  Record, RecordHandler, RecordSource, handle, handle_from, after_attempt, give_up, run,
  new_dlq_record, is_permanent,
}
use cascade_feed_ranking_eng.Fanout.Consumer.Retries.{Handled, handle_lem}
use cascade_feed_ranking_eng.Fanout.Consumer.Commits.{IsLog, IsCaughtUp, run-IsCaughtUp}
use cascade_feed_ranking_eng.Fanout.Consumer.DeadLetter.{restore, restore-new_dlq_record}

abbrev message : Bytes → ℤ → Record
message value offset = record {
  topic = codes "post-events";
  partition = pos 2;
  offset = offset;
  key = codes "42";
  value = value;
  headers = [];
}

abbrev good : Bytes
good = codes "good"

abbrev bad : Bytes
bad = codes "bad"

pub record World : Type 0 where
  pub waiting : List Record
  pub polled : List Record
  pub committed : List Record
  pub published : List Record

-- A record is processed if its payload is "good", and is refused for good if it is not.
abbrev handler : RecordHandler World
handler = record {
  process = λ topic value w. if eq_bytes value good then (ok tt, w) else (err permanent, w);
  publish_dlq = λ failed topic e attempts w. (
    ok tt,
    record {
      waiting = w.waiting;
      polled = w.polled;
      committed = w.committed;
      published = w.published ++ failed ∷ [];
    },
  );
  sleep = λ duration w. (ok tt, w);
  max_retries = 3;
  backoff = pos 1;
}

abbrev take_record : List Record → World → Result Error (Option Record) × World
take_record [] w = (err canceled, w)
take_record (r ∷ rest) w = (
  ok (some r),
  record {
    waiting = rest;
    polled = w.polled ++ r ∷ [];
    committed = w.committed;
    published = w.published;
  },
)

abbrev source : RecordSource World
source = record {
  poll = λ w. take_record w.waiting w;
  commit = λ r w. (
    ok tt,
    record {
      waiting = w.waiting;
      polled = w.polled;
      committed = w.committed ++ r ∷ [];
      published = w.published;
    },
  );
  allow_rebalance = λ w. w;
}

abbrev start : World
start = record {
  waiting = message good (pos 0) ∷ message bad (pos 1) ∷ [];
  polled = [];
  committed = [];
  published = [];
}

handle_lem_example :
    Handled handler (message bad (pos 1)) start (handle handler (message bad (pos 1)) start)
handle_lem_example = handle_lem handler (message bad (pos 1)) start

taken_some :
    (waiting : List Record) (w : World) (r : Record)
    → (take_record waiting w).0 ≡ ok (some r)
    → (take_record waiting w).1.polled ≡ w.polled ++ r ∷ []
taken_some [] w r h = cc
taken_some (x ∷ rest) w r h = let same : x ≡ r = cc in rw same refl

taken_none :
    (waiting : List Record) (w : World)
    → (take_record waiting w).0 ≡ ok none
    → (take_record waiting w).1.polled ≡ w.polled
taken_none [] w h = cc
taken_none (x ∷ rest) w h = cc

taken_err :
    (waiting : List Record) (w : World) (e : Error)
    → (take_record waiting w).0 ≡ err e
    → (take_record waiting w).1.polled ≡ w.polled
taken_err [] w e h = refl
taken_err (x ∷ rest) w e h = cc

taken_committed :
    (waiting : List Record) (w : World) → (take_record waiting w).1.committed ≡ w.committed
taken_committed [] w = refl
taken_committed (x ∷ rest) w = refl

handled_polled : (r : Record) (w : World) → (handle handler r w).1.polled ≡ w.polled
unfolding handle handle_from after_attempt give_up is_permanent
handled_polled r w = ground arith

handled_committed : (r : Record) (w : World) → (handle handler r w).1.committed ≡ w.committed
unfolding handle handle_from after_attempt give_up is_permanent
handled_committed r w = ground arith

source-IsLog : IsLog source handler (λ w. w.polled) (λ w. w.committed)
source-IsLog = record {
  poll_some = λ w r h. taken_some w.waiting w r h;
  poll_none = λ w h. taken_none w.waiting w h;
  poll_err = λ w e h. taken_err w.waiting w e h;
  poll_committed = λ w. taken_committed w.waiting w;
  commit_ok = λ r w h. refl;
  commit_err = λ r w e h. cc;
  commit_polled = λ r w. refl;
  handle_polled = handled_polled;
  handle_committed = handled_committed;
  rebalance_polled = λ w. refl;
  rebalance_committed = λ w. refl;
}

run-IsCaughtUp_example :
    IsCaughtUp source handler
      (λ w. w.polled)
      (λ w. w.committed)
      source-IsLog
      (run source handler 5 start)
run-IsCaughtUp_example =
    run-IsCaughtUp source handler (λ w. w.polled) (λ w. w.committed) source-IsLog 5 start refl tt

restore-new_dlq_record_example :
    restore (
      new_dlq_record
        (codes "post-events.dlq")
        (message bad (pos 1))
        (codes "malformed")
        1
        (pos 1234))
    ≡ some (message bad (pos 1))
restore-new_dlq_record_example =
    restore-new_dlq_record (codes "post-events.dlq") (message bad (pos 1)) (codes "malformed") 1
      (pos 1234) (omega arith) (omega arith)
