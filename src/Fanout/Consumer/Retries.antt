-- ===== src/Fanout/Consumer/Retries.antt =====
-- The retry loop of consumer.go's Handle.
use cascade_feed_ranking_eng.Common.{
  wrap64, ℕ, ℤ, ◌∙◌, zero, suc, ◌+◌, ◌≤◌, pos, ◌*ℤ◌, ltb, ltb→ge, ltb→lt, true, false, Error,
  Result, ok, err, Result-cases, Bool-cases, continue, ◌≡◌, refl, sym, inl, inr, ◌⊎◌, arith, subst,
}
use cascade_feed_ranking_eng.Fanout.Consumer.{
  Record, RecordHandler, dlq_topic, is_permanent, give_up, after_attempt, handle_from, handle,
}

module _ {W : Type 0} (h : RecordHandler W) (kgo_record : Record) where
  -- One attempt on the record.
  abbrev pub attempt : W → Result Error (Unit {0}) × W
  attempt = h.process kgo_record.topic kgo_record.value

  -- `Retried n w w₁`: from the world w, the first n attempts fail with errors that may pass, each
  -- is followed by a pause that grows with its number, and that leads to w₁.
  pub data Retried (w : W) : ℕ → W → Type 0 where
    start : Retried w 0 w
    retry :
        {n : ℕ} {w₁ : W} (e : Error)
        → Retried w n w₁
        → (attempt w₁).0 ≡ err e
        → is_permanent e ≡ false
        → (h.sleep (wrap64 (h.backoff *ℤ pos (suc n))) (attempt w₁).1).0 ≡ ok tt
        → Retried w (suc n) (h.sleep (wrap64 (h.backoff *ℤ pos (suc n))) (attempt w₁).1).1

  -- How Handle ends: the record is processed after at most `max_retries` failures; the service is
  -- told to stop in a pause; or the record is published with the last error and the number of
  -- attempts, because the error is permanent or the retries are used up.
  pub data Handled (w : W) : Result Error (Unit {0}) × W → Type 0 where
    processed :
        (n : ℕ) (w₁ : W)
        → Retried w n w₁
        → n ≤ h.max_retries
        → (attempt w₁).0 ≡ ok tt
        → Handled w (ok tt, (attempt w₁).1)
    interrupted :
        (n : ℕ) (w₁ : W) (e stopped : Error)
        → Retried w n w₁
        → suc n ≤ h.max_retries
        → (attempt w₁).0 ≡ err e
        → is_permanent e ≡ false
        → (h.sleep (wrap64 (h.backoff *ℤ pos (suc n))) (attempt w₁).1).0 ≡ err stopped
        → Handled w (err stopped, (h.sleep (wrap64 (h.backoff *ℤ pos (suc n))) (attempt w₁).1).1)
    published :
        (n : ℕ) (w₁ : W) (e : Error)
        → Retried w n w₁
        → n ≤ h.max_retries
        → (attempt w₁).0 ≡ err e
        → (is_permanent e ≡ true) ⊎ (n ≡ h.max_retries)
        → Handled w (h.publish_dlq kgo_record (dlq_topic kgo_record.topic) e (suc n) (attempt w₁).1)

  module _ (n : ℕ) (rest : W → Result Error (Unit {0}) × W) where
    after_success :
        (r : Result Error (Unit {0}) × W)
        → r.0 ≡ ok tt
        → after_attempt h kgo_record (suc n) rest r ≡ (ok tt, r.1)
    unfolding after_attempt
    after_success (ok a, w) done = refl
    after_success (err e, w) done = cc

    after_last :
        (r : Result Error (Unit {0}) × W) (e : Error)
        → r.0 ≡ err e
        → (is_permanent e ≡ true) ⊎ (n ≡ h.max_retries)
        → after_attempt h kgo_record (suc n) rest r
          ≡ h.publish_dlq kgo_record (dlq_topic kgo_record.topic) e (suc n) r.1
    unfolding after_attempt give_up
    after_last (ok a, w) e failed c = cc
    after_last (err e₁, w) e failed (inl p) = let same : e₁ ≡ e = cc in rw (same, p) refl
    after_last (err e₁, w) e failed (inr p) = let same : e₁ ≡ e = cc in rw same (ground arith)

    after_transient :
        (r : Result Error (Unit {0}) × W) (e : Error)
        → r.0 ≡ err e
        → is_permanent e ≡ false
        → suc n ≤ h.max_retries
        → after_attempt h kgo_record (suc n) rest r
          ≡ continue
              (h.sleep (wrap64 (h.backoff *ℤ pos (suc n))) r.1).0
              (λ _. rest)
              (h.sleep (wrap64 (h.backoff *ℤ pos (suc n))) r.1).1
    unfolding after_attempt
    after_transient (ok a, w) e failed c more = cc
    after_transient (err e₁, w) e failed c more =
        let same : e₁ ≡ e = cc in rw (same, c) (ground arith)

  module _ (w : W) (n : ℕ) (w₁ : W) (r : Retried w n w₁) where
    Handled-last :
        (rest : W → Result Error (Unit {0}) × W) (e : Error)
        → n ≤ h.max_retries
        → (attempt w₁).0 ≡ err e
        → (is_permanent e ≡ true) ⊎ (n ≡ h.max_retries)
        → Handled w (after_attempt h kgo_record (suc n) rest (attempt w₁))
    Handled-last rest e b failed c =
        subst (Handled w) (sym (after_last n rest (attempt w₁) e failed c))
          (published n w₁ e r b failed c)

    Handled-paused :
        (rest : W → Result Error (Unit {0}) × W) (e : Error)
        → suc n ≤ h.max_retries
        → (attempt w₁).0 ≡ err e
        → is_permanent e ≡ false
        → ((w₂ : W) → Retried w (suc n) w₂ → Handled w (rest w₂))
        → Handled w (after_attempt h kgo_record (suc n) rest (attempt w₁))
    Handled-paused rest e b failed c next =
        let slept = h.sleep (wrap64 (h.backoff *ℤ pos (suc n))) (attempt w₁).1 in
        subst (Handled w) (sym (after_transient n rest (attempt w₁) e failed c b))
          (elim (Result-cases slept.0) [
            | inl (tt, went_on) ↦
                subst (λ x. Handled w (continue x (λ _. rest) slept.1)) (sym went_on)
                  (next slept.1 (retry e r failed c went_on))
            | inr (stopped, s) ↦
                subst (λ x. Handled w (continue x (λ _. rest) slept.1)) (sym s)
                  (interrupted n w₁ e stopped r b failed c s)
          ])

    -- One pass of the loop, where `rest` is what follows the pause.
    Handled-attempt :
        (rest : W → Result Error (Unit {0}) × W)
        → n ≤ h.max_retries
        → (suc n ≤ h.max_retries → (w₂ : W) → Retried w (suc n) w₂ → Handled w (rest w₂))
        → Handled w (after_attempt h kgo_record (suc n) rest (attempt w₁))
    Handled-attempt rest b next = elim (Result-cases (attempt w₁).0) [
      | inl (tt, done) ↦
          subst (Handled w) (sym (after_success n rest (attempt w₁) done)) (processed n w₁ r b done)
      | inr (e, failed) ↦ elim (Bool-cases (is_permanent e)) [
        | inl p ↦ Handled-last rest e b failed (inl p)
        | inr p ↦ elim (Bool-cases (ltb h.max_retries (suc n))) [
          | inl last ↦
              Handled-last rest e b failed (inr (omega (arith, ltb→lt h.max_retries (suc n) last)))
          | inr more ↦
              let left = ltb→ge h.max_retries (suc n) more in
              Handled-paused rest e left failed p (next left)
        ]
      ]
    ]

  handle_from-Handled :
      (w : W) (fuel n : ℕ) (w₁ : W)
      → Retried w n w₁
      → n + fuel ≡ h.max_retries
      → Handled w (handle_from h (suc fuel) n kgo_record w₁)
  unfolding handle_from
  handle_from-Handled w zero n w₁ r e =
      Handled-attempt w n w₁ r (handle_from h zero (suc n) kgo_record) (omega arith)
        (λ more. absurd (omega arith))
  handle_from-Handled w (suc fuel) n w₁ r e =
      Handled-attempt w n w₁ r (handle_from h (suc fuel) (suc n) kgo_record) (omega arith)
        (λ _ w₂ r₂. handle_from-Handled w fuel (suc n) w₂ r₂ (omega arith))

  -- Handle always ends, after at most `max_retries + 1` attempts, in one of the ways of `Handled`.
  pub handle_lem : (w : W) → Handled w (handle h kgo_record w)
  unfolding handle
  handle_lem w = handle_from-Handled w h.max_retries 0 w start (omega arith)

-- Where the dead letter queue takes every failure of a record, and no pause is interrupted, Handle ends
-- without an error.
module _ {W : Type 0} (h : RecordHandler W) (kgo_record : Record)
    (takes : (error : Error) (attempts : ℕ) (w : W)
      → (h.publish_dlq kgo_record (dlq_topic kgo_record.topic) error attempts w).0 ≡ ok tt)
    (paused : (d : ℤ) (w : W) → (h.sleep d w).0 ≡ ok tt) where
  Handled-ok : (w : W) (r : Result Error (Unit {0}) × W) → Handled h kgo_record w r → r.0 ≡ ok tt
  Handled-ok w _ (processed n w₁ retried le done) = refl
  Handled-ok w _ (interrupted n w₁ e stopped retried le failed passing slept) =
      absurd (let bad = sym slept ∙ paused (wrap64 (h.backoff *ℤ pos (suc n))) _ in cc)
  Handled-ok w _ (published n w₁ e retried le failed last) = takes e (suc n) _

  pub handle-ok : (w : W) → (handle h kgo_record w).0 ≡ ok tt
  handle-ok w = Handled-ok w (handle h kgo_record w) (handle_lem h kgo_record w)
