-- ===== src/Deletion.antt =====
-- A deletion across the services: the event of the Post Service (events/kafka.go), the Fanout Worker
-- (fanout/processor.go, timeline/redis.go) and the Feed Service (candidate/redis.go,
-- hydrator/redis_post.go, feedserver/server.go) on one Redis.
use cascade_feed_ranking_eng.Common.{
  ℕ, ℤ, pos, ◌-ℤ◌, nonpos, lt_ℤ, eq_ℤ_iff, Bool, true, false, not, ◌&&◌, ◌||◌, List, [], ◌∷◌, ◌++◌,
  map, Map, has, has-append, has-append_unseen, Bytes, eq_bytes_refl, Error, other, Result, ok,
  reject, continue-ok, Bool-cases, floor_div, ◌≡◌, refl, sym, ap, ◌∙◌, subst, inl, inr, arith,
}
use cascade_feed_ranking_eng.Common.Decimal.{format_int}
use cascade_feed_ranking_eng.Redis.{
  Client, sadd, expire, timeline_key, celebrity_posts_key, celebrity_following_key, tombstones_key,
}
use cascade_feed_ranking_eng.Feed.{Post, CandidateSet}
use cascade_feed_ranking_eng.Feed.Candidate.{
  parse_ids, unique, exclude, flagged, read_deleted, load,
}
use cascade_feed_ranking_eng.Feed.Candidate.Tombstones.{has-flagged}
use cascade_feed_ranking_eng.Feed.Hydrator.{RedisPost, hydrate}
use cascade_feed_ranking_eng.Feed.Hydrator.Sound.{hydrate-IsKeyed}
use cascade_feed_ranking_eng.Feed.Page.Start.{ids}
use cascade_feed_ranking_eng.Feed.Select.{merge_ids, select_posts}
use cascade_feed_ranking_eng.Feed.Select.Eligible.{is_eligible}
use cascade_feed_ranking_eng.Feed.Select.Newest.{select_posts_sound}
use cascade_feed_ranking_eng.Fanout.Consumer.{Record}
use cascade_feed_ranking_eng.Fanout.Events.{has_nonpos, parse_post}
use cascade_feed_ranking_eng.Fanout.Processor.{Processor, process, process_post}
use cascade_feed_ranking_eng.Fanout.Timeline.{add_tombstone}
use cascade_feed_ranking_eng.Posts.Events.{Kafka, deleted_object, deleted_event, new_record}
use cascade_feed_ranking_eng.Posts.Events.Accepted.{
  deleted_of, IsReadable, IsPublished, parse_post-published,
}

-- What Redis documents of the set of tombstones: `dead` is its members in a world. SADD that succeeds
-- makes a member, SMISMEMBER that succeeds answers with one flag for each ID, and the command that
-- reads the timelines leaves the set as it is.
pub record IsTombstoneSet {W : Type 0} (client : Client W) (dead : W → ℤ → Bool) : Type 0 where
  pub added :
      (id ttl : ℤ) (w : W)
      → (client.tx_pipeline
          (sadd tombstones_key (format_int id ∷ []) ∷ expire tombstones_key ttl ∷ [])
          w).0
        ≡ ok tt
      → dead
          (client.tx_pipeline
            (sadd tombstones_key (format_int id ∷ []) ∷ expire tombstones_key ttl ∷ [])
            w).1
          id
        ≡ true
  pub flags :
      (ids : List ℤ) (answer : List Bool) (w : W)
      → (client.smismember tombstones_key (map format_int ids) w).0 ≡ ok answer
      → answer ≡ map (dead w) ids
  pub unread :
      (timeline celebrities followed : Bytes) (first last : ℤ) (w : W)
      → dead (client.read_feed timeline celebrities first last followed w).1 ≡ dead w

has-exclude :
    (i : ℤ) (ids deleted : List ℤ)
    → has i (exclude ids deleted) ≡ (has i ids && not (has i deleted))
unfolding has exclude
has-exclude i [] deleted = refl
has-exclude i (id ∷ ids) deleted = elim (Bool-cases (has id deleted)) [
  | inl gone ↦ rw (gone, exclude) (ground (arith, has-exclude i ids deleted, eq_ℤ_iff id i))
  | inr here ↦ rw (here, exclude) (ground (arith, has-exclude i ids deleted, eq_ℤ_iff id i))
]

ok-injective : {A : Type 0} (a b : A) → ◌≡◌ {A = Result Error A} (ok a) (ok b) → a ≡ b
ok-injective a b e = cc

excluded :
    (i : ℤ) (ids deleted : List ℤ)
    → (has i ids ≡ true → has i deleted ≡ true)
    → has i (exclude ids deleted) ≡ false
excluded i ids deleted h = ground (arith, has-exclude i ids deleted)

has-asked :
    (i : ℤ) (normal celebrities : List ℤ)
    → has i (unique (normal ++ celebrities)) ≡ (has i normal || has i celebrities)
unfolding unique
has-asked i normal celebrities =
    has-append_unseen (normal ++ celebrities) i ∙ has-append i normal celebrities

module _ {W : Type 0} (client : Client W) (dead : W → ℤ → Bool)
    (law : IsTombstoneSet client dead) where
  read_deleted-dead :
      (asked deleted : List ℤ) (w : W) (i : ℤ)
      → (read_deleted client asked w).0 ≡ ok deleted
      → dead w i ≡ true
      → has i asked ≡ true
      → has i deleted ≡ true
  unfolding read_deleted has
  read_deleted-dead [] deleted w i d gone h = cc
  read_deleted-dead (id ∷ asked) deleted w i d gone h =
      let (answer, got, last) =
        continue-ok (client.smismember tombstones_key (map format_int (id ∷ asked)) w) _ deleted
          d in
      let made : flagged (id ∷ asked) answer ≡ deleted = cc in
      let same = ap (flagged (id ∷ asked)) (sym (law.flags (id ∷ asked) answer w got)) ∙ made in
      ap (has i) (sym same) ∙ has-flagged (dead w) i (id ∷ asked) ∙ ground arith

  -- A tombstoned post is no candidate.
  load-dead :
      (user_id limit : ℤ) (c : CandidateSet) (w : W) (i : ℤ)
      → (load client user_id limit w).0 ≡ ok c
      → dead w i ≡ true
      → (nonpos limit ≡ false) × (has i c.normal_ids ≡ false) × (has i c.celebrity_ids ≡ false)
  unfolding load
  load-dead user_id limit c w i h gone =
      let m₀ : Result Error (Unit {0}) × W = reject (nonpos limit) other w in
      let (_, positive, h₁) = continue-ok m₀ _ c h in
      let good : nonpos limit ≡ false = ground arith in
      let start : m₀.1 ≡ w = rw good refl in
      let m₁ =
        client.read_feed (timeline_key user_id) celebrity_posts_key (pos 0) (limit -ℤ pos 1)
          (celebrity_following_key user_id) m₀.1 in
      let ((normal_values, celebrity_values, followed_values), got₁, h₂) = continue-ok m₁ _ c h₁ in
      let (normal, got₂, h₃) = continue-ok (parse_ids normal_values, m₁.1) _ c h₂ in
      let (celebrities, got₃, h₄) = continue-ok (parse_ids celebrity_values, m₁.1) _ c h₃ in
      let (followed, got₄, h₅) = continue-ok (parse_ids followed_values, m₁.1) _ c h₄ in
      let asked = unique (normal ++ celebrities) in
      let (deleted, got₅, last) = continue-ok (read_deleted client asked m₁.1) _ c h₅ in
      let same : record {
        normal_ids = exclude normal deleted;
        celebrity_ids = exclude celebrities deleted;
        followed_celebrities = followed;
      }
          ≡ c =
        ok-injective _ c last in
      let still : dead m₁.1 i ≡ true =
        ap (λ d. d i) (law.unread _ _ _ _ _ m₀.1) ∙ ap (λ x. dead x i) start ∙ gone in
      let marked = read_deleted-dead asked deleted m₁.1 i got₅ still in
      subst
        (λ s.
          (nonpos limit ≡ false) × (has i s.normal_ids ≡ false) × (has i s.celebrity_ids ≡ false))
        same
        (
          good,
          excluded i normal deleted
              (λ listed. marked (has-asked i normal celebrities ∙ ground arith)),
          excluded i celebrities deleted
              (λ listed. marked (has-asked i normal celebrities ∙ ground arith)),
        )

nonpos_lt : (n : ℤ) → nonpos n ≡ false → lt_ℤ n (pos 0) ≡ false
unfolding nonpos lt_ℤ
nonpos_lt n h = ground arith

not_eligible :
    (c : CandidateSet) (m : Map Post) (i : ℤ)
    → has i c.normal_ids ≡ false
    → has i c.celebrity_ids ≡ false
    → is_eligible c m i ≡ false
not_eligible c m i n l = rw (n, l) (ground arith)

module _ {W : Type 0} (p : Processor W) (dead : W → ℤ → Bool)
    (law : IsTombstoneSet p.timeline.client dead) where
  process-dead :
      (payload : Bytes) (post_id author_id deleted_at : ℤ) (w : W)
      → parse_post p.json payload ≡ ok (deleted_of post_id author_id deleted_at)
      → (process p p.settings.post_topic payload w).0 ≡ ok tt
      → dead (process p p.settings.post_topic payload w).1 post_id ≡ true
  unfolding process process_post add_tombstone
  process-dead payload post_id author_id deleted_at w parsed done =
      let run : process p p.settings.post_topic payload w ≡ add_tombstone p.timeline post_id w =
        rw (eq_bytes_refl, parsed) refl in
      ap (λ x. dead x.1 post_id) run
      ∙ law.added post_id p.timeline.tombstone_ttl w (sym (ap (λ x. x.0) run) ∙ done)

  -- When the Fanout Worker has processed the record that the Post Service published for a deletion,
  -- no feed shows the post, as long as its tombstone stands: whatever the timelines hold and the
  -- cache and the Post Service answer, it is not selected, even if it is in the cache. The two
  -- services use one Redis, JSON text is read back as it was written, and IDs are positive and the
  -- time is after 1970.
  pub deleted_not_selected :
      {V : Type 0} (k : Kafka V)
      → IsReadable k p.json
      → (post_id author_id deleted_at : ℤ) (r : Record) (w : W)
      → new_record k author_id (deleted_object (deleted_event post_id author_id deleted_at)) ≡ ok r
      → has_nonpos post_id author_id (floor_div deleted_at 1000000) ≡ false
      → (process p p.settings.post_topic r.value w).0 ≡ ok tt
      → (user_id limit : ℤ) (c : CandidateSet) (w₁ : W)
      → (dead (process p p.settings.post_topic r.value w).1 post_id ≡ true → dead w₁ post_id ≡ true)
      → (load p.timeline.client user_id limit w₁).0 ≡ ok c
      → (h : RedisPost W) (m : Map Post) (hits misses : ℕ) (w₂ : W)
      → (hydrate h (merge_ids c.normal_ids c.celebrity_ids) w₂).0 ≡ ok (m, hits, misses)
      → has post_id (ids (select_posts c m limit)) ≡ false
  deleted_not_selected k readable post_id author_id deleted_at r w published valid done user_id
        limit c w₁ kept loaded h m hits misses w₂ hydrated =
      let members = deleted_object (deleted_event post_id author_id deleted_at) in
      let event = deleted_of post_id author_id deleted_at in
      let parsed =
        parse_post-published k p.json readable author_id members event r
          (IsPublished.deleted post_id author_id deleted_at valid) published in
      let gone = kept (process-dead r.value post_id author_id deleted_at w parsed done) in
      let (positive, normal, celebrity) =
        load-dead p.timeline.client dead law user_id limit c w₁ post_id loaded gone in
      let keyed =
        hydrate-IsKeyed h (merge_ids c.normal_ids c.celebrity_ids) w₂ m hits misses hydrated in
      elim (Bool-cases (has post_id (ids (select_posts c m limit)))) [
        | inl shown ↦
            let eligible =
              select_posts_sound m keyed c limit post_id (nonpos_lt limit positive) shown in
            let hidden = not_eligible c m post_id normal celebrity in absurd cc
        | inr hidden ↦ hidden
      ]
