-- ===== src/Feed.antt =====
-- services/feed-service/internal/feed: the types of the Feed Service. `F` is float64.
pub mod Float
pub mod Candidate
pub mod Cursor
pub mod Hydrator
pub mod Signals
pub mod Page
pub mod Ranking
pub mod Select
pub mod Server
pub mod Bypass
pub mod Config
pub mod Metrics
pub mod Main
use cascade_feed_ranking_eng.Common.{ℤ, pos, negsuc, suc, ◌*◌, ◌-◌, Bytes, List, Map, floor_div}

-- `time.Time` as nanoseconds since the epoch, and `UnixMilli`, which rounds down.
abbrev pub Time : Type 0
Time = ℤ

abbrev pub unix_milli : Time → ℤ
unix_milli t = floor_div t 1000000

-- `time.UnixMilli`
unfoldable pub from_milli : ℤ → Time
from_milli (pos n) = pos (n * 1000000)
from_milli (negsuc n) = negsuc (suc n * 1000000 - 1)

pub record Post : Type 0 where
  pub id : ℤ
  pub author_id : ℤ
  pub content : Bytes
  pub media_url : Bytes
  pub created_at : Time

pub record CandidateSet : Type 0 where
  pub normal_ids : List ℤ
  pub celebrity_ids : List ℤ
  pub followed_celebrities : List ℤ

pub record Signal (F : Type 0) : Type 0 where
  pub likes : ℤ
  pub comments : ℤ
  pub affinity : F

pub record RankedPost (F : Type 0) : Type 0 where
  pub post : Post
  pub open post use *
  pub score : F
  pub recency : F
  pub engagement : F
  pub affinity : F
