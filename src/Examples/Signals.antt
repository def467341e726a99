-- ===== src/Examples/Signals.antt =====
-- The signals of three posts, of which one has engagements, and of two authors, of whom one is known to
-- the viewer.
use cascade_feed_ranking_eng.Common.{
  ℕ, suc, ℤ, pos, eq_ℤ, some, [], ◌∷◌, Map, lookup, has, ok, pure, ◌≡◌, refl,
}
use cascade_feed_ranking_eng.Database.{all_rows}
use cascade_feed_ranking_eng.Examples.Codec.{whole}
use cascade_feed_ranking_eng.Examples.Pages.{post}
use cascade_feed_ranking_eng.Feed.{Signal}
use cascade_feed_ranking_eng.Feed.Signals.{Database, load}
use cascade_feed_ranking_eng.Feed.Signals.Loaded.{load_signals}

abbrev counts : Map (ℤ × ℤ)
counts = (pos 2, (pos 3, pos 1)) ∷ []

abbrev affinities : Map ℤ
affinities = (pos 8, pos 7) ∷ []

-- The world counts the queries.
abbrev database : Database ℕ ℤ
database = record {
  engagement_rows = λ post_ids. pure (all_rows counts);
  affinity_rows = λ viewer_id authors. pure (all_rows affinities);
  affinity_default = pos 2;
  observe = suc;
}

abbrev signal : ℤ → ℤ → ℤ → Signal ℤ
signal likes comments affinity = record { likes = likes; comments = comments; affinity = affinity }

load_signals_example :
    (result : Map (Signal ℤ)) × (load whole database
        (pos 6)
        (post (pos 3) (pos 9) (pos 3000)
          ∷ post (pos 2) (pos 8) (pos 2000)
          ∷ post (pos 1) (pos 8) (pos 1000)
          ∷ [])
        0
      ≡ (ok result, 2))
    × ((lookup (pos 3) result ≡ some (signal (pos 0) (pos 0) (pos 2)))
        × ((lookup (pos 2) result ≡ some (signal (pos 3) (pos 1) (pos 7)))
            × ((lookup (pos 1) result ≡ some (signal (pos 0) (pos 0) (pos 7))) × Unit {0})))
unfolding lookup eq_ℤ has
load_signals_example =
    load_signals whole database (pos 6) (post (pos 3) (pos 9) (pos 3000))
      (post (pos 2) (pos 8) (pos 2000) ∷ post (pos 1) (pos 8) (pos 1000) ∷ []) counts affinities 0 0
      1 refl refl (refl, tt) (refl, tt) (refl, (refl, (refl, tt)))
