-- ===== src/Fanout/Metrics/Instrumented.antt =====
-- What metrics.go measures of the records that processor.go handles.
use cascade_feed_ranking_eng.Common.{
  ℤ, pos, lt_ℤ, ◌-ℤ◌, true, false, Option, none, some, Option-cases, Bytes, codes, eq_bytes,
  eq_bytes→eq, Error, permanent, ok, err, continue, continue-ok, Bool-cases, if◌then◌else◌, ◌≡◌,
  refl, sym, ◌∙◌, ap, inl, inr,
}
use cascade_feed_ranking_eng.Fanout.{
  Event, post_created, post_deleted, follow_created, follow_deleted,
}
use cascade_feed_ranking_eng.Fanout.Events.{EventJson, parse_post, parse_follow}
use cascade_feed_ranking_eng.Fanout.Processor.{Processor, process_post, process_follow, process}
use cascade_feed_ranking_eng.Fanout.Processor.Accepted.{IsMeant}
use cascade_feed_ranking_eng.Fanout.Events.Readings.{
  IsPostEvent, IsFollowEvent, parse_post-IsPostEvent, parse_follow-IsFollowEvent,
}
use cascade_feed_ranking_eng.Fanout.Metrics.{
  Metrics, post_time, follow_time, time_of, first_time, event_created_at_unix_ms, record_lag,
  count_result, instrumented, instrument,
}

-- The time at which an event was made.
abbrev pub event_time : Event → ℤ
event_time (post_created e) = e.created_at_unix_ms
event_time (post_deleted e) = e.deleted_at_unix_ms
event_time (follow_created e) = e.created_at_unix_ms
event_time (follow_deleted e) = e.deleted_at_unix_ms

IsTimed : (Event → Option ℤ) → Event → Type 0
IsTimed f e = (f e ≡ some (event_time e)) × (lt_ℤ (pos 0) (event_time e) ≡ true)

post-IsTimed :
    (json : EventJson) (payload : Bytes) (e : Event)
    → IsPostEvent json payload e
    → IsTimed post_time e
unfolding IsTimed post_time
post-IsTimed json payload _ (IsPostEvent.created e type read one two three) = (refl, three)
post-IsTimed json payload _ (IsPostEvent.deleted e type read one two three) = (refl, three)

follow-IsTimed :
    (json : EventJson) (payload : Bytes) (e : Event)
    → IsFollowEvent json payload e
    → IsTimed follow_time e
unfolding IsTimed follow_time
follow-IsTimed json payload _ (IsFollowEvent.followed e type read one two three) = (refl, three)
follow-IsTimed json payload _ (IsFollowEvent.unfollowed e type read one two three) = (refl, three)

module _ (json : EventJson) (payload : Bytes) where
  refused :
      (t : Bytes)
      → json.envelope payload ≡ some t
      → eq_bytes t (codes "FollowCreated") ≡ false
      → eq_bytes t (codes "FollowDeleted") ≡ false
      → parse_follow json payload ≡ err permanent
  unfolding parse_follow
  refused t found a b = rw (found, parse_follow) (rw (a, b) refl)

  -- The payload of a follow is no post event.
  not_post :
      (e : Event)
      → parse_follow json payload ≡ ok e
      → (x : Error) × (parse_post json payload ≡ err x)
  unfolding parse_post eq_bytes
  not_post e h = elim (Option-cases (json.envelope payload)) [
    | inl missing ↦ (permanent, rw (missing, parse_post) refl)
    | inr (t, found) ↦ elim (Bool-cases (eq_bytes t (codes "PostCreated"))) [
      | inl created ↦
          let same = found ∙ ap some (eq_bytes→eq t (codes "PostCreated") created) in
          absurd (let bad = sym (refused (codes "PostCreated") same refl refl) ∙ h in cc)
      | inr not_created ↦ elim (Bool-cases (eq_bytes t (codes "PostDeleted"))) [
        | inl deleted ↦
            let same = found ∙ ap some (eq_bytes→eq t (codes "PostDeleted") deleted) in
            absurd (let bad = sym (refused (codes "PostDeleted") same refl refl) ∙ h in cc)
        | inr not_deleted ↦ (permanent, rw (found, parse_post) (rw (not_created, not_deleted) refl))
      ]
    ]
  ]

  -- The time that is measured is that of the event, which is positive.
  post_created_at :
      (e : Event)
      → parse_post json payload ≡ ok e
      → (event_created_at_unix_ms json payload ≡ event_time e)
        × (lt_ℤ (pos 0) (event_time e) ≡ true)
  unfolding event_created_at_unix_ms first_time time_of IsTimed
  post_created_at e h =
      let (timed, positive) =
        post-IsTimed json payload e ((parse_post-IsPostEvent json payload e).0 h) in
      (
        ap (λ o. first_time o (time_of follow_time (parse_follow json payload)))
            (ap (time_of post_time) h ∙ timed),
        positive,
      )

  follow_created_at :
      (e : Event)
      → parse_follow json payload ≡ ok e
      → (event_created_at_unix_ms json payload ≡ event_time e)
        × (lt_ℤ (pos 0) (event_time e) ≡ true)
  unfolding event_created_at_unix_ms first_time time_of IsTimed
  follow_created_at e h =
      let (timed, positive) =
        follow-IsTimed json payload e ((parse_follow-IsFollowEvent json payload e).0 h) in
      let (x, refused_post) = not_post e h in
      (
        ap (λ r. first_time (time_of post_time r) (time_of follow_time (parse_follow json payload)))
              refused_post
            ∙ ap (first_time none) (ap (time_of follow_time) h ∙ timed),
        positive,
      )

module _ {W : Type 0} (m : Metrics W) (p : Processor W) where
  handled_as :
      (topic payload : Bytes) (w : W)
      → (process p topic payload w).0 ≡ ok tt
      → (e : Event) × IsMeant p topic payload e
        × ((event_created_at_unix_ms p.json payload ≡ event_time e)
            × (lt_ℤ (pos 0) (event_time e) ≡ true))
  unfolding process
  handled_as topic payload w h = elim (Bool-cases (eq_bytes topic p.settings.post_topic)) [
    | inl t ↦
        let step : process p topic payload w
            ≡ continue (parse_post p.json payload) (process_post p) w =
          rw t refl in
        let (e, parsed, rest) =
          continue-ok (parse_post p.json payload, w) (process_post p) tt
            (sym (ap (λ a. a.0) step) ∙ h) in
        (
          e,
          IsMeant.as_post e t ((parse_post-IsPostEvent p.json payload e).0 parsed),
          post_created_at p.json payload e parsed,
        )
    | inr n ↦ elim (Bool-cases (eq_bytes topic p.settings.follow_topic)) [
      | inl t ↦
          let step : process p topic payload w
              ≡ continue (parse_follow p.json payload) (process_follow p) w =
            rw (n, t) refl in
          let (e, parsed, rest) =
            continue-ok (parse_follow p.json payload, w) (process_follow p) tt
              (sym (ap (λ a. a.0) step) ∙ h) in
          (
            e,
            IsMeant.as_follow e n t ((parse_follow-IsFollowEvent p.json payload e).0 parsed),
            follow_created_at p.json payload e parsed,
          )
      | inr o ↦
          let step : process p topic payload w ≡ (err permanent, w) = rw (n, o) refl in
          absurd (let bad = sym (ap (λ a. a.0) step) ∙ h in cc)
    ]
  ]

  measured :
      (created : ℤ) (w : W)
      → lt_ℤ (pos 0) created ≡ true
      → let lag = m.now w -ℤ created in
        record_lag m created w ≡ m.observe_lag (if lt_ℤ lag (pos 0) then pos 0 else lag) w
  unfolding record_lag
  measured created w h = rw h refl

  -- A record that is handled without an error is counted once as "ok", and the time from the making of
  -- the event that its payload holds to now is measured, 0 if the event is from the future; the answer is that of Process.
  pub instrument-measured :
      (topic payload : Bytes) (w : W)
      → (process p topic payload w).0 ≡ ok tt
      → (e : Event) × IsMeant p topic payload e
        × let counted = m.processed topic (codes "ok") (process p topic payload w).1 in
          let lag = m.now counted -ℤ event_time e in
          (instrument p.json (process p) (some m) topic payload w
            ≡ (ok tt, m.observe_lag (if lt_ℤ lag (pos 0) then pos 0 else lag) counted))
  unfolding instrument instrumented count_result record_lag
  instrument-measured topic payload w h =
      let (e, meant, (time, positive)) = handled_as topic payload w h in
      let counted = m.processed topic (codes "ok") (process p topic payload w).1 in
      (
        e,
        meant,
        rw (h, count_result)
            (ap (λ w₁. (ok tt, w₁))
              (ap (λ t. record_lag m t counted) time ∙ measured (event_time e) counted positive)),
      )
