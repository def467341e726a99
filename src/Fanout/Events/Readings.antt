-- ===== src/Fanout/Events/Readings.antt =====
-- What the parsers of events.go accept: the events that a payload holds.
use cascade_feed_ranking_eng.Common.{
  ℤ, pos, lt_ℤ, nonpos, Bool, true, false, Option, none, some, Bool-cases, Bytes, codes, eq_bytes,
  eq_bytes→eq, Error, permanent, Result, ok, err, ◌≡◌, ◌↔◌, ◌⊎◌, refl, ap, subst, inl, inr, arith,
  if◌then◌else◌,
}
use cascade_feed_ranking_eng.Fanout.{
  PostCreated, PostDeleted, FollowCreated, FollowDeleted, Event, post_created, post_deleted,
  follow_created, follow_deleted,
}
use cascade_feed_ranking_eng.Fanout.Events.{
  EventJson, has_nonpos, parse_post, parse_post_created, parse_post_deleted, parse_follow,
  parse_follow_created, parse_follow_deleted,
}

abbrev pub IsPositive : ℤ → Type 0
IsPositive n = lt_ℤ (pos 0) n ≡ true

has_nonpos-IsPositive :
    (a b c : ℤ) → (has_nonpos a b c ≡ false) ↔ (IsPositive a × IsPositive b × IsPositive c)
unfolding has_nonpos nonpos lt_ℤ
has_nonpos-IsPositive a b c = ground arith

module _ (json : EventJson) (payload : Bytes) where
  -- The payload is JSON of an event of a post: its type names the struct that it decodes into, whose IDs
  -- and time are positive.
  pub data IsPostEvent : Event → Type 0 where
    created :
        (e : PostCreated)
        → json.envelope payload ≡ some (codes "PostCreated")
        → json.post_created payload ≡ some e
        → IsPositive e.post_id
        → IsPositive e.author_id
        → IsPositive e.created_at_unix_ms
        → IsPostEvent (post_created e)
    deleted :
        (e : PostDeleted)
        → json.envelope payload ≡ some (codes "PostDeleted")
        → json.post_deleted payload ≡ some e
        → IsPositive e.post_id
        → IsPositive e.author_id
        → IsPositive e.deleted_at_unix_ms
        → IsPostEvent (post_deleted e)

  -- The same for an event of a follow.
  pub data IsFollowEvent : Event → Type 0 where
    followed :
        (e : FollowCreated)
        → json.envelope payload ≡ some (codes "FollowCreated")
        → json.follow_created payload ≡ some e
        → IsPositive e.follower_id
        → IsPositive e.followee_id
        → IsPositive e.created_at_unix_ms
        → IsFollowEvent (follow_created e)
    unfollowed :
        (e : FollowDeleted)
        → json.envelope payload ≡ some (codes "FollowDeleted")
        → json.follow_deleted payload ≡ some e
        → IsPositive e.follower_id
        → IsPositive e.followee_id
        → IsPositive e.deleted_at_unix_ms
        → IsFollowEvent (follow_deleted e)

-- A struct that is decoded and then validated.
abbrev checked : {E : Type 0} → (E → Event) → (E → Bool) → Option E → Result Error Event
checked make bad o = elim o [
  | none ↦ err permanent
  | some e ↦ if bad e then err permanent else ok (make e)
]

checked_ok :
    {E : Type 0} (make : E → Event) (bad : E → Bool) (o : Option E) (event : Event)
    → checked make bad o ≡ ok event
    → (e : E) × (o ≡ some e) × (bad e ≡ false) × (make e ≡ event)
checked_ok make bad none event h = cc
checked_ok make bad (some e) event h = elim (Bool-cases (bad e)) [
  | inl wrong ↦ absurd (ground arith)
  | inr right ↦ (e, refl, right, ground arith)
]

-- The switch on the type in the envelope.
abbrev switched :
    Bytes → Bytes → Option Bytes → Result Error Event → Result Error Event → Result Error Event
switched first second o x y = elim o [
  | none ↦ err permanent
  | some t ↦ if eq_bytes t first then x else if eq_bytes t second then y else err permanent
]

switched_ok :
    (first second : Bytes) (o : Option Bytes) (x y : Result Error Event) (event : Event)
    → switched first second o x y ≡ ok event
    → ((o ≡ some first) × (x ≡ ok event)) ⊎ ((o ≡ some second) × (y ≡ ok event))
switched_ok first second none x y event h = cc
switched_ok first second (some t) x y event h = elim (Bool-cases (eq_bytes t first)) [
  | inl one ↦ inl (ap some (eq_bytes→eq t first one), ground arith)
  | inr other ↦ elim (Bool-cases (eq_bytes t second)) [
    | inl two ↦ inr (ap some (eq_bytes→eq t second two), ground arith)
    | inr neither ↦ absurd (ground arith)
  ]
]

switched_permanent :
    (first second : Bytes) (o : Option Bytes) (x y : Result Error Event) (e : Error)
    → (x ≡ err e → e ≡ permanent)
    → (y ≡ err e → e ≡ permanent)
    → switched first second o x y ≡ err e
    → e ≡ permanent
switched_permanent first second none x y e p q h = cc
switched_permanent first second (some t) x y e p q h = elim (Bool-cases (eq_bytes t first)) [
  | inl one ↦ p (ground arith)
  | inr other ↦ elim (Bool-cases (eq_bytes t second)) [
    | inl two ↦ q (ground arith)
    | inr neither ↦ ground arith
  ]
]

checked_permanent :
    {E : Type 0} (make : E → Event) (bad : E → Bool) (o : Option E) (e : Error)
    → checked make bad o ≡ err e
    → e ≡ permanent
checked_permanent make bad none e h = cc
checked_permanent make bad (some x) e h = ground arith

module _ (json : EventJson) (payload : Bytes) where
  read_post : (event : Event) → IsPostEvent json payload event → parse_post json payload ≡ ok event
  unfolding parse_post parse_post_created parse_post_deleted eq_bytes
  read_post _ (IsPostEvent.created e type read one two three) =
      let good =
        (has_nonpos-IsPositive e.post_id e.author_id e.created_at_unix_ms).1 (one, two, three) in
      rw (type, parse_post) (rw (read, parse_post_created) (rw good refl))
  read_post _ (IsPostEvent.deleted e type read one two three) =
      let good =
        (has_nonpos-IsPositive e.post_id e.author_id e.deleted_at_unix_ms).1 (one, two, three) in
      rw (type, parse_post) (rw (read, parse_post_deleted) (rw good refl))

  -- The parser accepts exactly the events of posts that the payload holds.
  pub parse_post-IsPostEvent :
      (event : Event) → (parse_post json payload ≡ ok event) ↔ IsPostEvent json payload event
  unfolding parse_post parse_post_created parse_post_deleted eq_bytes
  parse_post-IsPostEvent event = (
    λ h.
        elim (switched_ok (codes "PostCreated") (codes "PostDeleted") (json.envelope payload)
          (parse_post_created json payload) (parse_post_deleted json payload) event h) [
            | inl (type, taken) ↦
                let (e, read, good, same) =
                  checked_ok post_created
                    (λ e. has_nonpos e.post_id e.author_id e.created_at_unix_ms)
                    (json.post_created payload) event taken in
                let (one, two, three) =
                  (has_nonpos-IsPositive e.post_id e.author_id e.created_at_unix_ms).0 good in
                subst (IsPostEvent json payload) same
                  (IsPostEvent.created e type read one two three)
            | inr (type, taken) ↦
                let (e, read, good, same) =
                  checked_ok post_deleted
                    (λ e. has_nonpos e.post_id e.author_id e.deleted_at_unix_ms)
                    (json.post_deleted payload) event taken in
                let (one, two, three) =
                  (has_nonpos-IsPositive e.post_id e.author_id e.deleted_at_unix_ms).0 good in
                subst (IsPostEvent json payload) same
                  (IsPostEvent.deleted e type read one two three)
          ],
    read_post event,
  )

  pub parse_post-permanent : (e : Error) → parse_post json payload ≡ err e → e ≡ permanent
  unfolding parse_post parse_post_created parse_post_deleted
  parse_post-permanent e h =
      switched_permanent (codes "PostCreated") (codes "PostDeleted") (json.envelope payload)
        (parse_post_created json payload) (parse_post_deleted json payload) e
        (checked_permanent post_created (λ e. has_nonpos e.post_id e.author_id e.created_at_unix_ms)
          (json.post_created payload) e)
        (checked_permanent post_deleted (λ e. has_nonpos e.post_id e.author_id e.deleted_at_unix_ms)
          (json.post_deleted payload) e)
        h

  read_follow :
      (event : Event) → IsFollowEvent json payload event → parse_follow json payload ≡ ok event
  unfolding parse_follow parse_follow_created parse_follow_deleted eq_bytes
  read_follow _ (IsFollowEvent.followed e type read one two three) =
      let good =
        (has_nonpos-IsPositive e.follower_id e.followee_id e.created_at_unix_ms).1
          (one, two, three) in
      rw (type, parse_follow) (rw (read, parse_follow_created) (rw good refl))
  read_follow _ (IsFollowEvent.unfollowed e type read one two three) =
      let good =
        (has_nonpos-IsPositive e.follower_id e.followee_id e.deleted_at_unix_ms).1
          (one, two, three) in
      rw (type, parse_follow) (rw (read, parse_follow_deleted) (rw good refl))

  -- The parser accepts exactly the events of follows that the payload holds.
  pub parse_follow-IsFollowEvent :
      (event : Event) → (parse_follow json payload ≡ ok event) ↔ IsFollowEvent json payload event
  unfolding parse_follow parse_follow_created parse_follow_deleted eq_bytes
  parse_follow-IsFollowEvent event = (
    λ h.
        elim (switched_ok (codes "FollowCreated") (codes "FollowDeleted") (json.envelope payload)
          (parse_follow_created json payload) (parse_follow_deleted json payload) event h) [
            | inl (type, taken) ↦
                let (e, read, good, same) =
                  checked_ok follow_created
                    (λ e. has_nonpos e.follower_id e.followee_id e.created_at_unix_ms)
                    (json.follow_created payload) event taken in
                let (one, two, three) =
                  (has_nonpos-IsPositive e.follower_id e.followee_id e.created_at_unix_ms).0 good in
                subst (IsFollowEvent json payload) same
                  (IsFollowEvent.followed e type read one two three)
            | inr (type, taken) ↦
                let (e, read, good, same) =
                  checked_ok follow_deleted
                    (λ e. has_nonpos e.follower_id e.followee_id e.deleted_at_unix_ms)
                    (json.follow_deleted payload) event taken in
                let (one, two, three) =
                  (has_nonpos-IsPositive e.follower_id e.followee_id e.deleted_at_unix_ms).0 good in
                subst (IsFollowEvent json payload) same
                  (IsFollowEvent.unfollowed e type read one two three)
          ],
    read_follow event,
  )

  pub parse_follow-permanent : (e : Error) → parse_follow json payload ≡ err e → e ≡ permanent
  unfolding parse_follow parse_follow_created parse_follow_deleted
  parse_follow-permanent e h =
      switched_permanent (codes "FollowCreated") (codes "FollowDeleted") (json.envelope payload)
        (parse_follow_created json payload) (parse_follow_deleted json payload) e
        (checked_permanent follow_created
          (λ e. has_nonpos e.follower_id e.followee_id e.created_at_unix_ms)
          (json.follow_created payload) e)
        (checked_permanent follow_deleted
          (λ e. has_nonpos e.follower_id e.followee_id e.deleted_at_unix_ms)
          (json.follow_deleted payload) e)
        h
