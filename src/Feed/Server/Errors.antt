-- ===== src/Feed/Server/Errors.antt =====
-- Which requests `GetFeed` refuses, and what a failing dependency makes of a request.
use cascade_feed_ranking_eng.Common.{
  ℕ, ltb→ge, ◌≤◌, ◌+◌, ℤ, pos, pos_part, nonpos, lt_ℤ, true, false, Option, some, List, map, length,
  length-map, length-take, Bytes, Result, ok, err, continue, pure, Result-cases, ◌≡◌, ◌≢◌, refl,
  ◌↔◌, ◌⊎◌, inl, inr, arith, ◌>>◌,
}
use cascade_feed_ranking_eng.Feed.{RankedPost}
use cascade_feed_ranking_eng.Feed.Float.{Float64}
use cascade_feed_ranking_eng.Feed.Cursor.{Cursor, Codec}
use cascade_feed_ranking_eng.Feed.Select.{merge_ids, select_posts}
use cascade_feed_ranking_eng.Feed.Page.{page_start, page_end, page_items}
use cascade_feed_ranking_eng.Feed.Server.{
  Code, invalid_argument, unavailable, internal, GetFeedRequest, GetFeedResponse, Server,
  observe_feed, to_item, parse_token, next_token, respond, serve_feed, page_size_of, get_feed,
}

pub finish_lem :
    {W F : Type 0} (s : Server W F) (hits misses : ℕ) (r : Result Code (GetFeedResponse F)) (w : W)
    → (continue r (λ response. observe_feed s hits misses >> pure response) w).0 ≡ r
unfolding observe_feed
finish_lem s hits misses (ok response) w = ground arith
finish_lem s hits misses (err c) w = refl

module _ {W : Type 0} (fl : Float64) (codec : Codec fl.F) (s : Server W fl.F) where
  open fl use {F}

  -- The checks on a request: the user, the page size and the token.
  abbrev pub IsBadRequest : GetFeedRequest → Type 0
  IsBadRequest req =
      (nonpos req.user_id ≡ true)
      ⊎ (lt_ℤ (page_size_of s req) (pos 1) ≡ true)
      ⊎ (lt_ℤ s.max_page_size (page_size_of s req) ≡ true)
      ⊎ (parse_token fl codec req.page_token ≡ err invalid_argument)

  pub parse_token-code :
      (token : Bytes) (c : Code) → parse_token fl codec token ≡ err c → c ≡ invalid_argument
  unfolding parse_token
  parse_token-code token c h = ground arith

  -- A request that fails a check is refused before anything is read or written.
  get_feed_refuses :
      (req : GetFeedRequest) (w : W)
      → IsBadRequest req
      → get_feed fl codec s (some req) w ≡ (err invalid_argument, w)
  unfolding get_feed
  get_feed_refuses req w b = ground arith

  pub respond-code :
      (ranked : List (RankedPost F)) (cursor : Option (Cursor F)) (size : ℕ) (c : Code)
      → respond fl codec ranked cursor size ≡ err c
      → c ≡ internal
  unfolding respond next_token
  respond-code ranked cursor size c h = ground arith

  -- After the checks the handler stops at a failing dependency, or answers from a ranked list.
  serve_feed-cases :
      (user_id page_size : ℤ) (cursor : Option (Cursor F)) (w : W)
      → ((c : Code) × (c ≢ invalid_argument)
          × ((serve_feed fl codec s user_id page_size cursor w).0 ≡ err c))
        ⊎ ((ranked : List (RankedPost F)) × ((serve_feed fl codec s user_id page_size cursor w).0
              ≡ respond fl codec ranked cursor (pos_part page_size)))
  unfolding serve_feed
  serve_feed-cases user_id page_size cursor w =
      let w₁ = (s.load_candidates user_id s.candidate_pool w).1 in
      elim (Result-cases (s.load_candidates user_id s.candidate_pool w).0) [
        | inr (_, failed) ↦ inl (unavailable, λ p. cc, rw failed)
        | inl (c, loaded) ↦
            let asked = s.hydrate (merge_ids c.normal_ids c.celebrity_ids) w₁ in
            elim (Result-cases asked.0) [
              | inr (_, failed) ↦ inl (unavailable, λ p. cc, rw (loaded, failed))
              | inl ((hydrated, hits, misses), found) ↦
                  let posts = select_posts c hydrated s.candidate_pool in
                  let signed = s.load_signals user_id posts asked.1 in
                  elim (Result-cases signed.0) [
                    | inr (_, failed) ↦ inl (internal, λ p. cc, rw (loaded, found, failed))
                    | inl (signals, given) ↦ inr (
                      s.rank posts signals signed.1,
                      rw (loaded, found, given)
                          (finish_lem s hits misses
                            (respond fl codec (s.rank posts signals signed.1) cursor
                              (pos_part page_size))
                            signed.1),
                    )
                  ]
            ]
      ]

  pub get_feed-ok :
      (req : GetFeedRequest) (w : W) (response : GetFeedResponse F)
      → (get_feed fl codec s (some req) w).0 ≡ ok response
      → (cursor : Option (Cursor F)) × (ranked : List (RankedPost F)) × (parse_token fl codec
            req.page_token
          ≡ ok cursor)
        × (lt_ℤ (page_size_of s req) (pos 1) ≡ false)
        × (lt_ℤ s.max_page_size (page_size_of s req) ≡ false)
        × (respond fl codec ranked cursor (pos_part (page_size_of s req)) ≡ ok response)
  unfolding get_feed
  get_feed-ok req w response h = elim (Result-cases (parse_token fl codec req.page_token)) [
    | inr (_, failed) ↦ absurd (ground arith)
    | inl (cursor, parsed) ↦
        let served : (serve_feed fl codec s req.user_id (page_size_of s req) cursor w).0
            ≡ ok response =
          ground arith in
        elim (serve_feed-cases req.user_id (page_size_of s req) cursor w) [
          | inl (c, _, stopped) ↦ absurd (ground arith)
          | inr (ranked, made) ↦ (cursor, ranked, parsed, ground arith, ground arith, ground arith)
        ]
  ]

  serve_feed-code :
      (user_id page_size : ℤ) (cursor : Option (Cursor F)) (w : W)
      → (serve_feed fl codec s user_id page_size cursor w).0 ≢ err invalid_argument
  serve_feed-code user_id page_size cursor w h =
      elim (serve_feed-cases user_id page_size cursor w) [
        | inl (c, other, stopped) ↦ ground arith
        | inr (ranked, made) ↦
            ground (arith, respond-code ranked cursor (pos_part page_size) invalid_argument)
      ]

  pub get_feed-invalid_iff :
      (req : GetFeedRequest) (w : W)
      → ((get_feed fl codec s (some req) w).0 ≡ err invalid_argument) ↔ IsBadRequest req
  unfolding get_feed
  get_feed-invalid_iff req w = (
    λ h. elim (Result-cases (parse_token fl codec req.page_token)) [
      | inr (c, failed) ↦ ground (arith, parse_token-code req.page_token c)
      | inl (cursor, parsed) ↦
          ground (arith, serve_feed-code req.user_id (page_size_of s req) cursor w)
    ],
    λ b. rw (get_feed_refuses req w b),
  )

  page_end-le :
      (ranked : List (RankedPost F)) (start size : ℕ) → page_end fl ranked start size ≤ start + size
  unfolding page_end
  page_end-le ranked start size = ground (arith, ltb→ge (length ranked) (start + size))

  respond-length :
      (ranked : List (RankedPost F)) (cursor : Option (Cursor F)) (size : ℕ)
      (response : GetFeedResponse F)
      → respond fl codec ranked cursor size ≡ ok response
      → length response.items ≤ size
  unfolding respond page_items
  respond-length ranked cursor size response h =
      let start = page_start fl ranked cursor in
      let end_ = page_end fl ranked start size in
      let items : response.items ≡ map (to_item fl codec) (page_items fl ranked start end_) =
        ground arith in
      rw (items, length-map, length-take) (omega (arith, page_end-le ranked start size))

  -- Whatever the dependencies do, an answer holds at most as many items as the request asked for
  -- (the default, if it asked for 0), which is at most the maximum.
  pub get_feed-bounded :
      (req : GetFeedRequest) (w : W) (response : GetFeedResponse F)
      → (get_feed fl codec s (some req) w).0 ≡ ok response
      → (length response.items ≤ pos_part (page_size_of s req))
        × (length response.items ≤ pos_part s.max_page_size)
  unfolding lt_ℤ
  get_feed-bounded req w response h =
      let (cursor, ranked, parsed, low, high, made) = get_feed-ok req w response h in
      let bound = respond-length ranked cursor (pos_part (page_size_of s req)) response made in
      (bound, ground arith)
