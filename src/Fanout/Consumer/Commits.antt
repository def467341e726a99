-- ===== src/Fanout/Consumer/Commits.antt =====
-- The loop of consumer.go's Run: an offset is committed after the record it follows is handled.
use cascade_feed_ranking_eng.Common.{
  ℕ, zero, suc, Option, none, some, List, [], ◌∷◌, ◌++◌, Error, Result, ok, err, Result-cases, ◌≡◌,
  refl, sym, inl, inr, ◌⊎◌, ◌∙◌, ap, All, All-append, subst,
}
use cascade_feed_ranking_eng.Fanout.Consumer.{
  Record, RecordHandler, RecordSource, handle, handle_polled, after_record, after_poll, run, Run,
}

-- What the log of Kafka says of a world: the records polled so far, and those whose offset is
-- committed. A poll that gives a record adds it to the first list, and a commit that succeeds adds
-- its record to the second; nothing else changes the lists.
pub record IsLog {W : Type 0} (source : RecordSource W) (h : RecordHandler W)
    (polled committed : W → List Record) : Type 0 where
  pub poll_some :
      (w : W) (r : Record)
      → (source.poll w).0 ≡ ok (some r)
      → polled (source.poll w).1 ≡ polled w ++ r ∷ []
  pub poll_none : (w : W) → (source.poll w).0 ≡ ok none → polled (source.poll w).1 ≡ polled w
  pub poll_err :
      (w : W) (e : Error) → (source.poll w).0 ≡ err e → polled (source.poll w).1 ≡ polled w
  pub poll_committed : (w : W) → committed (source.poll w).1 ≡ committed w
  pub commit_ok :
      (r : Record) (w : W)
      → (source.commit r w).0 ≡ ok tt
      → committed (source.commit r w).1 ≡ committed w ++ r ∷ []
  pub commit_err :
      (r : Record) (w : W) (e : Error)
      → (source.commit r w).0 ≡ err e
      → committed (source.commit r w).1 ≡ committed w
  pub commit_polled : (r : Record) (w : W) → polled (source.commit r w).1 ≡ polled w
  pub handle_polled : (r : Record) (w : W) → polled (handle h r w).1 ≡ polled w
  pub handle_committed : (r : Record) (w : W) → committed (handle h r w).1 ≡ committed w
  pub rebalance_polled : (w : W) → polled (source.allow_rebalance w) ≡ polled w
  pub rebalance_committed : (w : W) → committed (source.allow_rebalance w) ≡ committed w

module _ {W : Type 0} (source : RecordSource W) (h : RecordHandler W)
    (polled committed : W → List Record) (log : IsLog source h polled committed) where
  -- Handle has ended without an error on the record.
  abbrev IsHandled : Record → Type 0
  IsHandled r = (w : W) × ((handle h r w).0 ≡ ok tt)

  -- All that was polled is committed, and only records that were handled without an error are.
  abbrev IsUpToDate : W → Type 0
  IsUpToDate w = (polled w ≡ committed w) × All IsHandled (committed w)

  -- The records that are committed were handled without an error. At most the record polled last is not
  -- committed, and then Run has returned the error of its handling or of its commit.
  pub IsCaughtUp : Option (Result Error (Unit {0})) × W → Type 0
  IsCaughtUp (result, w) =
      All IsHandled (committed w)
      × ((polled w ≡ committed w)
          ⊎ ((e : Error) × (last : Record) × (result ≡ some (err e))
              × (polled w ≡ committed w ++ last ∷ [])
              × (((w₁ : W) × ((handle h last w₁).0 ≡ err e))
                  ⊎ ((w₁ : W) × ((source.commit last w₁).0 ≡ err e)))))

  -- The rest of the loop after the handling of what a poll gave.
  record_handled :
      (rest : Run W) (r : Record) (w : W)
      → polled w ≡ committed w ++ r ∷ []
      → All IsHandled (committed w)
      → ((w₁ : W) → IsUpToDate w₁ → IsCaughtUp (rest w₁))
      → IsCaughtUp (after_record rest (handle_polled source h (some r) w))
  unfolding handle_polled after_record IsCaughtUp
  record_handled rest r w e a next =
      let done = handle h r w in
      let before : polled done.1 ≡ committed done.1 ++ r ∷ [] =
        rw (log.handle_polled r w, log.handle_committed r w) e in
      let old : All IsHandled (committed done.1) =
        subst (All IsHandled) (sym (log.handle_committed r w)) a in
      elim (Result-cases done.0) [
        | inr (x, failed) ↦ rw failed (old, inr (x, r, refl, before, inl (w, failed)))
        | inl (tt, handled) ↦
            let sent = source.commit r done.1 in
            elim (Result-cases sent.0) [
              | inr (x, failed) ↦
                  let same = log.commit_err r done.1 x failed in
                  rw (handled, failed)
                    (
                      subst (All IsHandled) (sym same) old,
                      inr (
                        x,
                        r,
                        refl,
                        rw (log.commit_polled r done.1, same) before,
                        inr (done.1, failed),
                      ),
                    )
              | inl (tt, committed_now) ↦
                  let now = log.commit_ok r done.1 committed_now in
                  let after : polled sent.1 ≡ committed sent.1 =
                    rw (log.commit_polled r done.1, now) before in
                  let new : All IsHandled (committed sent.1) =
                    subst (All IsHandled) (sym now)
                      (All-append IsHandled (committed done.1) (r ∷ []) old ((w, handled), tt)) in
                  rw (handled, committed_now)
                    (next (source.allow_rebalance sent.1) (
                      log.rebalance_polled sent.1 ∙ after ∙ sym (log.rebalance_committed sent.1),
                      subst (All IsHandled) (sym (log.rebalance_committed sent.1)) new,
                    ))
            ]
      ]

  poll_handled :
      (rest : Run W) (w : W)
      → IsUpToDate w
      → ((w₁ : W) → IsUpToDate w₁ → IsCaughtUp (rest w₁))
      → IsCaughtUp (after_poll (handle_polled source h) rest (source.poll w))
  unfolding after_poll handle_polled after_record IsCaughtUp
  poll_handled rest w (e, a) next =
      let old = subst (All IsHandled) (sym (log.poll_committed w)) a in
      let fetched = source.poll w in
      elim (Result-cases fetched.0) [
        | inr (x, failed) ↦
            rw (failed, after_poll)
              (old, inl (log.poll_err w x failed ∙ e ∙ sym (log.poll_committed w)))
        | inl (none, empty) ↦
            rw (empty, after_poll)
              (next fetched.1 (log.poll_none w empty ∙ e ∙ sym (log.poll_committed w), old))
        | inl (some r, found) ↦
            rw (found, after_poll)
              (record_handled rest r fetched.1
                (rw (log.poll_some w r found, log.poll_committed w) (ap (λ x. x ++ r ∷ []) e)) old
                next)
      ]

  -- However long Run goes on, and whatever fails, the committed records are those that were polled, in
  -- order, except the last one if Run has returned the error of handling or committing it; and Handle
  -- has ended without an error on each of them. At the start all that was polled is committed, of
  -- records that were handled, and only polls and commits change what is polled and committed.
  pub run-IsCaughtUp :
      (polls : ℕ) (w : W)
      → polled w ≡ committed w
      → All IsHandled (committed w)
      → IsCaughtUp (run source h polls w)
  unfolding run IsCaughtUp
  run-IsCaughtUp zero w e a = (a, inl e)
  run-IsCaughtUp (suc polls) w e a =
      poll_handled (run source h polls) w (e, a) (λ w₁ (e₁, a₁). run-IsCaughtUp polls w₁ e₁ a₁)
