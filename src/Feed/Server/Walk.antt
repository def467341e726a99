-- ===== src/Feed/Server/Walk.antt =====
-- A client that follows the page tokens of `GetFeed` to their end.
use cascade_feed_ranking_eng.Common.{
  ℕ, zero, suc, ◌+◌, ◌≤◌, ◌<◌, ℤ, pos, pos_part, nonpos, eq_ℤ, lt_ℤ, false, Option, none, some,
  List, [], ◌++◌, map, length, take, drop, All, Distinct, Map, Bytes, is_empty, Result, ok, err,
  length-map, take_all, take-append-drop, length-drop, drop-drop, ◌≡◌, refl, ap, ◌∙◌, inl, inr,
  arith, if◌then◌else◌, map-append,
}
use cascade_feed_ranking_eng.Feed.{Post, CandidateSet, Signal, RankedPost}
use cascade_feed_ranking_eng.Feed.Float.{Float64}
use cascade_feed_ranking_eng.Feed.Cursor.{Cursor, Codec, decode}
use cascade_feed_ranking_eng.Feed.Cursor.RoundTrip.{IsCodec}
use cascade_feed_ranking_eng.Feed.Select.{merge_ids, select_posts}
use cascade_feed_ranking_eng.Feed.Page.{page_start}
use cascade_feed_ranking_eng.Feed.Page.Start.{ids}
use cascade_feed_ranking_eng.Feed.Server.{
  Code, GetFeedResponse, FeedItem, Server, parse_token, respond, serve_feed, page_size_of, get_feed,
}
use cascade_feed_ranking_eng.Feed.Server.Errors.{finish_lem}
use cascade_feed_ranking_eng.Feed.Server.Answer.{IsEncodable, respond-Answers}

nonzero : (n : ℤ) → lt_ℤ n (pos 1) ≡ false → eq_ℤ n (pos 0) ≡ false
unfolding lt_ℤ eq_ℤ
nonzero n h = ground arith

positive : (n : ℤ) → lt_ℤ n (pos 1) ≡ false → 0 < pos_part n
unfolding lt_ℤ
positive n h = ground arith

glue :
    {A : Type 0} (start size : ℕ) (xs : List A)
    → take size (drop start xs) ++ drop (start + size) xs ≡ drop start xs
glue start size xs =
    rw (← drop-drop start size (start + size) xs refl) (take-append-drop size (drop start xs))

parse_token-some :
    (fl : Float64) (codec : Codec fl.F) (token : Bytes) (c : Cursor fl.F)
    → is_empty token ≡ false
    → decode fl codec token ≡ some c
    → parse_token fl codec token ≡ ok (some c)
unfolding parse_token
parse_token-some fl codec token c full read = rw (full, read, parse_token)

-- The dependencies give the same candidates, posts and signals at every call, and rank the same
-- posts `ps` in the same order, though the scores may change from call to call.
pub record IsStationary {W : Type 0} (fl : Float64) (codec : Codec fl.F) (s : Server W fl.F)
    (user_id : ℤ) (ps : List Post) : Type 0 where
  pub candidates : CandidateSet
  pub hydrated : Map Post
  pub signals : Map (Signal fl.F)
  pub hits : W → ℕ
  pub misses : W → ℕ
  pub loads : (w : W) → (s.load_candidates user_id s.candidate_pool w).0 ≡ ok candidates
  pub hydrates :
      (w : W)
      → (s.hydrate (merge_ids candidates.normal_ids candidates.celebrity_ids) w).0
        ≡ ok (hydrated, hits w, misses w)
  pub signs :
      (w : W)
      → (s.load_signals user_id (select_posts candidates hydrated s.candidate_pool) w).0
        ≡ ok signals
  pub ranks :
      (w : W)
      → map (λ r. r.post) (s.rank (select_posts candidates hydrated s.candidate_pool) signals w)
        ≡ ps
  pub encodable :
      (w : W)
      → All
          (IsEncodable fl codec)
          (s.rank (select_posts candidates hydrated s.candidate_pool) signals w)

module _ {W : Type 0} (fl : Float64) (codec : Codec fl.F) (s : Server W fl.F) where
  open fl use {F}

  serve_feed-respond :
      (user_id page_size : ℤ) (ps : List Post) (cursor : Option (Cursor F)) (w : W)
      → IsStationary fl codec s user_id ps
      → (ranked : List (RankedPost F)) × (map (λ r. r.post) ranked ≡ ps)
        × All (IsEncodable fl codec) ranked
        × ((serve_feed fl codec s user_id page_size cursor w).0
            ≡ respond fl codec ranked cursor (pos_part page_size))
  unfolding serve_feed
  serve_feed-respond user_id page_size ps cursor w t =
      let w₁ = (s.load_candidates user_id s.candidate_pool w).1 in
      let w₂ = (s.hydrate (merge_ids t.candidates.normal_ids t.candidates.celebrity_ids) w₁).1 in
      let posts = select_posts t.candidates t.hydrated s.candidate_pool in
      let w₃ = (s.load_signals user_id posts w₂).1 in
      let answer = respond fl codec (s.rank posts t.signals w₃) cursor (pos_part page_size) in
      (
        s.rank posts t.signals w₃,
        t.ranks w₃,
        t.encodable w₃,
        rw (t.loads w, t.hydrates w₁, t.signs w₂)
            (finish_lem s (t.hits w₁) (t.misses w₁) answer w₃),
      )

  -- One `GetFeed` after another, each with the token of the one before, until a token is empty.
  follow :
      (Bytes → W → Option (List (FeedItem F)))
      → Result Code (GetFeedResponse F) × W
      → Option (List (FeedItem F))
  follow next (err c, w) = none
  follow next (ok r, w) =
      if is_empty r.next_page_token
      then some r.items
      else elim (next r.next_page_token w) [ none ↦ none | some rest ↦ some (r.items ++ rest) ]

  pub collect : ℤ → ℤ → ℕ → Bytes → W → Option (List (FeedItem F))
  unfolding follow
  collect user_id page_size zero token w = none
  collect user_id page_size (suc calls) token w = follow (collect user_id page_size calls) (
      get_feed fl codec s
        (some (record { user_id = user_id; page_size = page_size; page_token = token })) w)

  -- The page size that a request asks for is one that `GetFeed` accepts as it is.
  abbrev pub IsPageSize : ℤ → Type 0
  IsPageSize n = (lt_ℤ n (pos 1) ≡ false) × (lt_ℤ s.max_page_size n ≡ false)

  get_feed-respond :
      (user_id page_size : ℤ) (ps : List Post) (token : Bytes) (cursor : Option (Cursor F)) (w : W)
      → IsStationary fl codec s user_id ps
      → nonpos user_id ≡ false
      → IsPageSize page_size
      → parse_token fl codec token ≡ ok cursor
      → (ranked : List (RankedPost F)) × (map (λ r. r.post) ranked ≡ ps)
        × All (IsEncodable fl codec) ranked
        × ((get_feed fl codec s
              (some (record { user_id = user_id; page_size = page_size; page_token = token }))
              w).0
            ≡ respond fl codec ranked cursor (pos_part page_size))
  unfolding get_feed page_size_of
  get_feed-respond user_id page_size ps token cursor w t u n c =
      let (ranked, e, v, a) = serve_feed-respond user_id page_size ps cursor w t in
      (ranked, e, v, rw (u, nonzero page_size n.0, n.0, n.1, c) a)

  follow_last :
      (next : Bytes → W → Option (List (FeedItem F))) (r : Result Code (GetFeedResponse F) × W)
      (response : GetFeedResponse F)
      → r.0 ≡ ok response
      → response.next_page_token ≡ []
      → follow next r ≡ some response.items
  unfolding follow
  follow_last next (err c, w) response h e = cc
  follow_last next (ok r, w) response h e = let same : r ≡ response = cc in rw (same, e, follow)

  follow_next :
      (next : Bytes → W → Option (List (FeedItem F))) (r : Result Code (GetFeedResponse F) × W)
      (response : GetFeedResponse F) (rest : List (FeedItem F))
      → r.0 ≡ ok response
      → is_empty response.next_page_token ≡ false
      → next response.next_page_token r.1 ≡ some rest
      → follow next r ≡ some (response.items ++ rest)
  unfolding follow
  follow_next next (err c, w) response rest h e n = cc
  follow_next next (ok r, w) response rest h e n =
      let same : r ≡ response = cc in
      rw (same, e, n, follow) (ap (λ (x : GetFeedResponse F). some (x.items ++ rest)) same)

  collect_from :
      (user_id page_size : ℤ) (ps : List Post) (calls start : ℕ) (token : Bytes)
      (cursor : Option (Cursor F)) (w : W)
      → IsCodec fl codec
      → Distinct (ids ps)
      → IsStationary fl codec s user_id ps
      → nonpos user_id ≡ false
      → IsPageSize page_size
      → parse_token fl codec token ≡ ok cursor
      → ((ranked : List (RankedPost F))
          → map (λ r. r.post) ranked ≡ ps
          → page_start fl ranked cursor ≡ start)
      → start ≤ length ps
      → length ps < start + calls
      → (items : List (FeedItem F)) × (collect user_id page_size calls token w ≡ some items)
        × (map (λ i. i.post_id) items ≡ drop start (ids ps))
  unfolding collect
  collect_from user_id page_size ps zero start token cursor w k d t u n c p h m =
      absurd (omega arith)
  collect_from user_id page_size ps (suc calls) start token cursor w k d t u n c p h m =
      let (ranked, e, v, a) = get_feed-respond user_id page_size ps token cursor w t u n c in
      let size = pos_part page_size in
      let (response, made, answers) =
        respond-Answers fl codec k ranked ps d e v cursor start size (p ranked e) h
          (positive page_size n.0) in
      let asked =
        get_feed fl codec s
          (some (record { user_id = user_id; page_size = page_size; page_token = token })) w in
      elim answers.1 [
        | inl (last, no_token) ↦ (
          response.items,
          follow_last (collect user_id page_size calls) asked response (a ∙ made) no_token,
          answers.0
              ∙ take_all size (drop start (ids ps))
                  (omega (arith, length-drop start (ids ps), length-map (λ (q : Post). q.id) ps)),
        )
        | inr (more, (full, (c', read, next_start))) ↦
            let (rest, got, rest_ids) =
              collect_from user_id page_size ps calls (start + size) response.next_page_token
                (some c') asked.1 k d t u n
                (parse_token-some fl codec response.next_page_token c' full read) next_start
                (omega arith) (omega (arith, positive page_size n.0)) in
            (
              response.items ++ rest,
              follow_next (collect user_id page_size calls) asked response rest (a ∙ made) full got,
              rw (map-append, answers.0, rest_ids) (glue start size (ids ps)),
            )
      ]

  -- Following the tokens from the first page on, a client meets every ranked post exactly once and
  -- in rank order, and no call fails, at any page size that the service accepts: if the candidates,
  -- the posts and the order of the ranking do not change meanwhile, the posts have different IDs
  -- and every score is one that a token can carry.
  pub collect_all :
      (user_id page_size : ℤ) (ps : List Post) (w : W)
      → IsCodec fl codec
      → Distinct (ids ps)
      → IsStationary fl codec s user_id ps
      → nonpos user_id ≡ false
      → IsPageSize page_size
      → (items : List (FeedItem F)) × (collect user_id page_size (suc (length ps)) [] w
          ≡ some items)
        × (map (λ i. i.post_id) items ≡ ids ps)
  unfolding parse_token page_start
  collect_all user_id page_size ps w k d t u n =
      collect_from user_id page_size ps (suc (length ps)) 0 [] none w k d t u n refl (λ _ _. refl)
        (omega arith) (omega arith)
