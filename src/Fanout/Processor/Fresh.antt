-- ===== src/Fanout/Processor/Fresh.antt =====
-- The follower count by which processor.go decides on a new follow.
use cascade_feed_ranking_eng.Common.{ℤ, none, [], ◌∷◌, Bytes, ok, continue-ok, ◌≡◌, refl, subst}
use cascade_feed_ranking_eng.Redis.{Client, del, follower_count_key}
use cascade_feed_ranking_eng.Fanout.{FollowCreated, follow_created}
use cascade_feed_ranking_eng.Fanout.Timeline.{
  cached_follower_count, cache_follower_count, invalidate_follower_count,
}
use cascade_feed_ranking_eng.Fanout.Processor.{
  Processor, use_count, follower_count, deliver_follow, process_follow,
}

-- A key that was deleted is not found.
pub record IsDeleting {W : Type 0} (client : Client W) : Type 0 where
  pub deleted :
      (key : Bytes) (w : W)
      → (client.run (del (key ∷ [])) w).0 ≡ ok tt
      → (client.get_int64 key (client.run (del (key ∷ [])) w).1).0 ≡ ok none

module _ {W : Type 0} (p : Processor W) (law : IsDeleting p.timeline.client) where
  counted :
      (user_id count : ℤ) (w : W)
      → (use_count p user_id none w).0 ≡ ok count
      → (p.repository.follower_count user_id w).0 ≡ ok count
  unfolding use_count
  counted user_id count w h =
      let (found, e, more) = continue-ok (p.repository.follower_count user_id w) _ count h in
      let (a, stored, same) =
        continue-ok
          (cache_follower_count p.timeline user_id found (p.repository.follower_count user_id w).1)
          _ count more in
      cc

  -- A new follow that is handled without an error is treated by the number of followers that the
  -- database gives once the cached number is deleted, never by a number cached before: in Redis, a
  -- key that was deleted is not found.
  pub process_follow-counted :
      (event : FollowCreated) (w : W)
      → (process_follow p (follow_created event) w).0 ≡ ok tt
      → let gone = (invalidate_follower_count p.timeline event.followee_id w).1 in
        let read = (cached_follower_count p.timeline event.followee_id gone).1 in
        (count : ℤ) × ((p.repository.follower_count event.followee_id read).0 ≡ ok count)
        × (process_follow p (follow_created event) w
            ≡ deliver_follow p event count (follower_count p event.followee_id gone).1)
  unfolding process_follow follower_count invalidate_follower_count cached_follower_count
  process_follow-counted event w h =
      let id = event.followee_id in
      let gone = invalidate_follower_count p.timeline id w in
      let (a, e, counting) = continue-ok gone _ tt h in
      let (count, counted_ok, delivered) =
        continue-ok (follower_count p id gone.1) (deliver_follow p event) tt counting in
      let missing = law.deleted (follower_count_key id) w e in
      let cached = cached_follower_count p.timeline id gone.1 in
      let (absent, found, used) = continue-ok cached (use_count p id) count counted_ok in
      let none_found : absent ≡ none = cc in
      (
        count,
        counted id count cached.1
            (subst (λ o. (use_count p id o cached.1).0 ≡ ok count) none_found used),
        rw (e, counted_ok) refl,
      )
