-- ===== src/Feed/Server/Answer.antt =====
-- What one answer of `GetFeed` tells a client: the IDs of the page and where the next one starts.
use cascade_feed_ranking_eng.Common.{
  ℕ, ◌+◌, ◌-◌, ◌≤◌, ◌<◌, true, false, Option, none, some, List, [], ◌∷◌, map, length, take, drop,
  get_elem?, All, Distinct, Bytes, is_empty, ok, length-map, map-take, map-drop, take_all,
  length-drop, get_elem?-some, get_elem?-map, All-get_elem?, ltb, ltb→ge, ltb→lt, Bool-cases, ◌≡◌,
  refl, sym, ap, ◌∙◌, ◌⊎◌, inl, inr, arith, subst,
}
use cascade_feed_ranking_eng.Feed.{Post, RankedPost, unix_milli}
use cascade_feed_ranking_eng.Feed.Float.{Float64}
use cascade_feed_ranking_eng.Feed.Cursor.{Cursor, Codec, valid, decode}
use cascade_feed_ranking_eng.Feed.Cursor.RoundTrip.{IsCodec, cursor_of, decode-encode}
use cascade_feed_ranking_eng.Feed.Page.{page_start, page_end, page_items, page_last}
use cascade_feed_ranking_eng.Feed.Page.Start.{ids, page_start-cursor}
use cascade_feed_ranking_eng.Feed.Server.{GetFeedResponse, to_item, next_token, respond}

module _ (fl : Float64) (codec : Codec fl.F) where
  open fl use {F}

  -- A score that a token can carry, and positive numbers beside it.
  abbrev pub IsEncodable : RankedPost F → Type 0
  IsEncodable r = valid fl codec r.score (unix_milli r.created_at) r.id ≡ true

  module _ (ranked : List (RankedPost F)) (ps : List Post) (start size : ℕ)
      (e : map (λ r. r.post) ranked ≡ ps) where
    length-ranked : length ranked ≡ length ps
    length-ranked = sym (length-map (λ (r : RankedPost F). r.post) ranked) ∙ ap length e

    posts_of_items : map (λ r. r.post) (take size (drop start ranked)) ≡ take size (drop start ps)
    posts_of_items = rw (map-take, map-drop, e)

    page_items_lem :
        start ≤ length ps
        → page_items fl ranked start (page_end fl ranked start size) ≡ take size (drop start ranked)
    unfolding page_items page_end
    page_items_lem h = elim (Bool-cases (ltb (length ranked) (start + size))) [
      | inl more ↦
          rw (more, page_end, page_items)
            (take_all (length ranked - start) (drop start ranked)
                (omega (arith, length-drop start ranked))
              ∙ sym (
                  take_all size (drop start ranked) (
                    omega (
                      arith,
                      length-drop start ranked,
                      ltb→lt (length ranked) (start + size) more,
                    ))))
      | inr less ↦
          let exact : start + size - start ≡ size = omega arith in
          rw (less, page_end, exact, page_items)
    ]

    -- Nothing follows the last page, and it has no token.
    last_page :
        length ps ≤ start + size → page_last fl ranked start (page_end fl ranked start size) ≡ none
    unfolding page_last page_end
    last_page h = ground (arith, length-ranked)

    -- A page before the last one ends at the post that its token names.
    middle_page :
        start + size < length ps
        → 0 < size
        → page_last fl ranked start (page_end fl ranked start size)
          ≡ get_elem? ranked (start + size - 1)
    unfolding page_last page_end
    middle_page h k = ground (arith, length-ranked)

  -- What a page's answer is, for a client that goes on to ask: the IDs of the page, and a token
  -- that is empty after the last page and otherwise makes the next page start where this one ends.
  abbrev pub NextStart : List Post → ℕ → Bytes → Type 0
  NextStart ps next token =
      (is_empty token ≡ false)
      × ((c : Cursor F) × (decode fl codec token ≡ some c)
          × ((ranked : List (RankedPost F))
              → map (λ r. r.post) ranked ≡ ps
              → page_start fl ranked (some c) ≡ next))

  abbrev pub Answers : List Post → ℕ → ℕ → GetFeedResponse F → Type 0
  Answers ps start size response =
      (map (λ i. i.post_id) response.items ≡ take size (drop start (ids ps)))
      × (((length ps ≤ start + size) × (response.next_page_token ≡ []))
          ⊎ ((start + size < length ps) × NextStart ps (start + size) response.next_page_token))

  item_ids :
      (rs : List (RankedPost F))
      → map (λ i. i.post_id) (map (to_item fl codec) rs) ≡ ids (map (λ r. r.post) rs)
  unfolding to_item
  item_ids [] = refl
  item_ids (r ∷ rs) = ap (◌∷◌ r.id) (item_ids rs)

  module _ (k : IsCodec fl codec) (ranked : List (RankedPost F)) (ps : List Post)
      (d : Distinct (ids ps)) (e : map (λ r. r.post) ranked ≡ ps) (v : All IsEncodable ranked) where
    page_ids :
        (start size : ℕ)
        → start ≤ length ps
        → map
            (λ i. i.post_id)
            (map (to_item fl codec) (page_items fl ranked start (page_end fl ranked start size)))
          ≡ take size (drop start (ids ps))
    page_ids start size h = rw (
      page_items_lem ranked ps start size e h,
      item_ids,
      posts_of_items ranked ps start size e,
      map-take,
      map-drop,
    )

    token_after :
        (i : ℕ)
        → i < length ps
        → (token : Bytes) × (next_token fl codec (get_elem? ranked i) ≡ ok token)
          × NextStart ps (i + 1) token
    unfolding next_token
    token_after i h =
        let (r, here) = get_elem?-some ranked i (omega (arith, length-ranked ranked ps 0 0 e)) in
        let post_here =
          subst (λ qs. get_elem? qs i ≡ some r.post) e
            (get_elem?-map (λ (r : RankedPost F). r.post) ranked i r here) in
        let (token, written, full, read) =
          decode-encode fl codec r.score (unix_milli r.created_at) r.id k
            (All-get_elem? IsEncodable ranked i r v here) in
        let c = cursor_of fl codec r.score (unix_milli r.created_at) r.id in
        (
          token,
          rw (here, next_token, written),
          (
            full,
            (
              c,
              read,
              λ later e'. page_start-cursor fl later ps c i r.post e' d post_here refl refl,
            ),
          ),
        )

    abbrev page : ℕ → ℕ → Bytes → GetFeedResponse F
    page start size token = record {
      items = map (to_item fl codec) (page_items fl ranked start (page_end fl ranked start size));
      next_page_token = token;
    }

    respond_ok :
        (cursor : Option (Cursor F)) (start size : ℕ) (token : Bytes)
        → page_start fl ranked cursor ≡ start
        → next_token fl codec (page_last fl ranked start (page_end fl ranked start size)) ≡ ok token
        → respond fl codec ranked cursor size ≡ ok (page start size token)
    unfolding respond
    respond_ok cursor start size token s n = rw (s, n, respond) (rw s)

    pub respond-Answers :
        (cursor : Option (Cursor F)) (start size : ℕ)
        → page_start fl ranked cursor ≡ start
        → start ≤ length ps
        → 0 < size
        → (response : GetFeedResponse F) × (respond fl codec ranked cursor size ≡ ok response)
          × Answers ps start size response
    unfolding next_token
    respond-Answers cursor start size s h pos_size =
        elim (Bool-cases (ltb (start + size) (length ps))) [
          | inl more ↦
              let n : start + size - 1 < length ps = ground arith in
              let (token, made, next) = token_after (start + size - 1) n in
              let same : start + size - 1 + 1 ≡ start + size = omega arith in
              let next' = subst (λ m. NextStart ps m token) same next in
              let last =
                middle_page ranked ps start size e (ltb→lt (start + size) (length ps) more)
                  pos_size in
              (
                page start size token,
                respond_ok cursor start size token s (rw last made),
                (page_ids start size h, inr (ltb→lt (start + size) (length ps) more, next')),
              )
          | inr less ↦
              let last =
                last_page ranked ps start size e (ltb→ge (start + size) (length ps) less) in
              (
                page start size [],
                respond_ok cursor start size [] s (rw (last, next_token)),
                (page_ids start size h, inl (ltb→ge (start + size) (length ps) less, refl)),
              )
        ]
