-- ===== src/Feed/Main/Accepting.antt =====
-- What holds of the server that main.go puts together.
use cascade_feed_ranking_eng.Common.{
  ℤ, pos, lt_ℤ, eq_ℤ, nonpos, Bool, true, false, not, ◌||◌, ◌&&◌, [], some, ok, err, ◌≡◌, ◌≢◌, sym,
  ◌∙◌, inl, inr, arith, if◌then◌else◌,
}
use cascade_feed_ranking_eng.Common.Env.{LookupEnv}
use cascade_feed_ranking_eng.Redis.{Client}
use cascade_feed_ranking_eng.Feed.Float.{Float64}
use cascade_feed_ranking_eng.Feed.Cursor.{Codec}
use cascade_feed_ranking_eng.Feed.Server.{
  invalid_argument, GetFeedRequest, parse_token, page_size_of, get_feed,
}
use cascade_feed_ranking_eng.Feed.Server.Errors.{get_feed-invalid_iff}
use cascade_feed_ranking_eng.Feed.Config.{Config, Texts, is_refused, load}
use cascade_feed_ranking_eng.Feed.Config.Valid.{load-accepted}
use cascade_feed_ranking_eng.Feed.Main.{GetPosts, Libraries, new_server}

module _ {W : Type 0} (fl : Float64) (libs : Libraries W fl.F) (texts : Texts fl.F)
    (env : LookupEnv) (codec : Codec fl.F) where
  open fl use {F}
  open libs use {Pool}

  default_fits :
      (c : Config F)
      → is_refused c ≡ false
      → (lt_ℤ c.default_page_size (pos 1) ≡ false)
        × (lt_ℤ c.max_page_size c.default_page_size ≡ false)
  unfolding is_refused nonpos lt_ℤ
  default_fits c h = ground arith

  -- The default size, or one from 1 to the maximum.
  abbrev pub is_page_size : Config F → ℤ → Bool
  is_page_size c n = eq_ℤ n (pos 0) || (not (lt_ℤ n (pos 1)) && not (lt_ℤ c.max_page_size n))

  size_fits :
      (c : Config F) (n : ℤ)
      → is_refused c ≡ false
      → is_page_size c n ≡ true
      → let size = if eq_ℤ n (pos 0) then c.default_page_size else n in
        (lt_ℤ size (pos 1) ≡ false) × (lt_ℤ c.max_page_size size ≡ false)
  size_fits c n h sized = ground (arith, default_fits c h)

  -- A server that is put together from settings that Load accepts never refuses a first page, of the
  -- default size or of a size from 1 to the maximum, of a positive user as an invalid argument.
  pub first_page_accepted :
      (c : Config F) (w₀ : W)
      → (load fl texts env w₀).0 ≡ ok c
      → (pool : Pool) (client : Client W) (get_posts : GetPosts W) (user_id n : ℤ) (w : W)
      → nonpos user_id ≡ false
      → is_page_size c n ≡ true
      → (get_feed fl codec
          (new_server fl libs c pool client get_posts)
          (some (record { user_id = user_id; page_size = n; page_token = [] }))
          w).0
        ≢ err invalid_argument
  unfolding new_server page_size_of parse_token
  first_page_accepted c w₀ loaded pool client get_posts user_id n w positive sized invalid =
      let s = new_server fl libs c pool client get_posts in
      let req : GetFeedRequest = record { user_id = user_id; page_size = n; page_token = [] } in
      let (low, high) = size_fits c n (load-accepted fl texts env c w₀ loaded).0 sized in
      elim ((get_feed-invalid_iff fl codec s req w).0 invalid) [
        | inl user ↦ let no = sym user ∙ positive in cc
        | inr (inl short) ↦ let no = sym short ∙ low in cc
        | inr (inr (inl long)) ↦ let no = sym long ∙ high in cc
        | inr (inr (inr token)) ↦ cc
      ]
