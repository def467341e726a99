-- ===== src/Feed/Server/Failing.antt =====
-- What `GetFeed` answers when a dependency fails.
use cascade_feed_ranking_eng.Common.{
  pos_part, ℤ, Option, some, Error, ok, err, Result-cases, ◌≡◌, ◌≢◌, ◌↔◌, ◌⊎◌, inl, inr, arith, sym,
  ap, ◌∙◌,
}
use cascade_feed_ranking_eng.Feed.{CandidateSet}
use cascade_feed_ranking_eng.Feed.Float.{Float64}
use cascade_feed_ranking_eng.Feed.Cursor.{Cursor, Codec}
use cascade_feed_ranking_eng.Feed.Select.{merge_ids, select_posts}
use cascade_feed_ranking_eng.Feed.Server.{
  unavailable, GetFeedRequest, Server, parse_token, respond, serve_feed, page_size_of, get_feed,
}
use cascade_feed_ranking_eng.Feed.Server.Errors.{
  IsBadRequest, finish_lem, parse_token-code, respond-code, get_feed-invalid_iff,
}

module _ {W : Type 0} (fl : Float64) (codec : Codec fl.F) (s : Server W fl.F) where
  -- The candidates cannot be loaded, or the posts of all candidates cannot be hydrated.
  abbrev pub IsDown : ℤ → W → Type 0
  IsDown user_id w =
      ((e : Error) × ((s.load_candidates user_id s.candidate_pool w).0 ≡ err e))
      ⊎ ((c : CandidateSet) × (e : Error) × ((s.load_candidates user_id s.candidate_pool w).0
            ≡ ok c)
          × ((s.hydrate (merge_ids c.normal_ids c.celebrity_ids)
                (s.load_candidates user_id s.candidate_pool w).1).0
              ≡ err e))

  serve_feed-IsDown :
      (user_id page_size : ℤ) (cursor : Option (Cursor fl.F)) (w : W)
      → (IsDown user_id w
          × ((serve_feed fl codec s user_id page_size cursor w).0 ≡ err unavailable))
        ⊎ ((IsDown user_id w → ⊥)
            × ((serve_feed fl codec s user_id page_size cursor w).0 ≢ err unavailable))
  unfolding serve_feed
  serve_feed-IsDown user_id page_size cursor w =
      let w₁ = (s.load_candidates user_id s.candidate_pool w).1 in
      elim (Result-cases (s.load_candidates user_id s.candidate_pool w).0) [
        | inr (e, failed) ↦ inl (inl (e, failed), rw failed)
        | inl (c, loaded) ↦
            let asked = s.hydrate (merge_ids c.normal_ids c.celebrity_ids) w₁ in
            elim (Result-cases asked.0) [
              | inr (e, failed) ↦ inl (inr (c, e, loaded, failed), rw (loaded, failed))
              | inl ((hydrated, hits, misses), found) ↦
                  let posts = select_posts c hydrated s.candidate_pool in
                  let signed = s.load_signals user_id posts asked.1 in
                  inr (
                    λ down. elim down [ inl (e, failed) ↦ cc | inr (c', e, loaded', failed) ↦ cc ],
                    elim (Result-cases signed.0) [
                      | inr (e, failed) ↦ rw (loaded, found, failed) (λ h. cc)
                      | inl (signals, given) ↦
                          rw
                            (
                              loaded,
                              found,
                              given,
                              finish_lem s hits misses
                                  (respond fl codec (s.rank posts signals signed.1) cursor
                                    (pos_part page_size))
                                  signed.1,
                            )
                            (λ h. ground (
                              arith,
                              respond-code fl codec s (s.rank posts signals signed.1) cursor
                                  (pos_part page_size) unavailable,
                            ))
                    ],
                  )
            ]
      ]

  -- A request that passes the checks is served.
  get_feed-served :
      (req : GetFeedRequest) (w : W)
      → (IsBadRequest fl codec s req → ⊥)
      → (cursor : Option (Cursor fl.F)) × (get_feed fl codec s (some req) w
          ≡ serve_feed fl codec s req.user_id (page_size_of s req) cursor w)
  unfolding get_feed
  get_feed-served req w good = elim (Result-cases (parse_token fl codec req.page_token)) [
    | inr (c, failed) ↦ absurd (good (ground (arith, parse_token-code fl codec s req.page_token c)))
    | inl (cursor, parsed) ↦ (cursor, ground arith)
  ]

  -- `GetFeed` answers Unavailable exactly to the requests that pass the checks and for which the
  -- candidate store fails, or the hydration of all its candidates.
  pub get_feed-unavailable_iff :
      (req : GetFeedRequest) (w : W)
      → ((get_feed fl codec s (some req) w).0 ≡ err unavailable)
        ↔ ((IsBadRequest fl codec s req → ⊥) × IsDown req.user_id w)
  get_feed-unavailable_iff req w = (
    λ h.
        let good : IsBadRequest fl codec s req → ⊥ =
          λ bad. let refused = (get_feed-invalid_iff fl codec s req w).1 bad in cc in
        let (cursor, served) = get_feed-served req w good in
        (
          good,
          elim (serve_feed-IsDown req.user_id (page_size_of s req) cursor w) [
            | inl (down, _) ↦ down
            | inr (_, other) ↦ absurd (other (sym (ap (λ r. r.0) served) ∙ h))
          ],
        ),
    λ (good, down).
        let (cursor, served) = get_feed-served req w good in
        elim (serve_feed-IsDown req.user_id (page_size_of s req) cursor w) [
          | inl (_, stopped) ↦ ap (λ r. r.0) served ∙ stopped
          | inr (up, _) ↦ absurd (up down)
        ],
  )
