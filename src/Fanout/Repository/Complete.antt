-- ===== src/Fanout/Repository/Complete.antt =====
-- The lists that postgres.go returns: complete, or an error.
use cascade_feed_ranking_eng.Common.{
  ℤ, nonpos, List, ok, ◌≡◌, ◌↔◌, Bool-cases, inl, inr, [], if◌then◌else◌,
}
use cascade_feed_ranking_eng.Database.Answers.{IsComplete, read-IsComplete}
use cascade_feed_ranking_eng.Fanout.{Post}
use cascade_feed_ranking_eng.Fanout.Warm.{PostContent, User, FollowEdge}
use cascade_feed_ranking_eng.Fanout.Repository.{
  Pool, to_post, to_content, follower_ids, list_users, list_follows, query_per_author,
  recent_posts_per_author, recent_posts,
}

module _ {W : Type 0} (pool : Pool W) where
  per_author :
      (limit : ℤ) (contents : List PostContent) (w : W)
      → ((recent_posts_per_author pool limit w).0 ≡ ok contents) ↔ (
          if nonpos limit
          then contents ≡ []
          else IsComplete to_content (pool.query_recent_per_author limit w).0 contents)
  unfolding recent_posts_per_author query_per_author
  per_author limit contents w = elim (Bool-cases (nonpos limit)) [
    | inl none_asked ↦ rw none_asked (λ h. cc, λ h. cc)
    | inr asked ↦ rw asked (
        read-IsComplete to_content (pool.query_recent_per_author limit w).0 contents
          (pool.query_recent_per_author limit w).1)
  ]

  -- The five lists of the repository are complete or the call is an error: none is cut short by a row
  -- that cannot be scanned or an iteration that ends early, and no other error is invented. The posts
  -- per author are an empty list, without a query, unless their number is positive.
  pub lists-IsComplete :
      (id author limit : ℤ) (ids : List ℤ) (users : List User) (edges : List FollowEdge)
      (posts : List Post) (contents : List PostContent) (w : W)
      → (((follower_ids pool id w).0 ≡ ok ids)
          ↔ IsComplete (λ i. i) (pool.query_follower_ids id w).0 ids)
        × (((list_users pool w).0 ≡ ok users) ↔ IsComplete (λ u. u) (pool.query_users w).0 users)
        × (((list_follows pool w).0 ≡ ok edges)
            ↔ IsComplete (λ e. e) (pool.query_follows w).0 edges)
        × (((recent_posts pool author limit w).0 ≡ ok posts)
            ↔ IsComplete to_post (pool.query_recent author limit w).0 posts)
        × (((recent_posts_per_author pool limit w).0 ≡ ok contents) ↔ (
            if nonpos limit
            then contents ≡ []
            else IsComplete to_content (pool.query_recent_per_author limit w).0 contents))
  unfolding follower_ids list_users list_follows recent_posts recent_posts_per_author
  lists-IsComplete id author limit ids users edges posts contents w = (
    read-IsComplete (λ i. i) (pool.query_follower_ids id w).0 ids (pool.query_follower_ids id w).1,
    read-IsComplete (λ u. u) (pool.query_users w).0 users (pool.query_users w).1,
    read-IsComplete (λ e. e) (pool.query_follows w).0 edges (pool.query_follows w).1,
    read-IsComplete to_post (pool.query_recent author limit w).0 posts
        (pool.query_recent author limit w).1,
    per_author limit contents w,
  )
