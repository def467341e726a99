-- ===== src/Feed/Config/Valid.antt =====
-- The settings that Load of config.go accepts.
use cascade_feed_ranking_eng.Common.{
  false, ok, other, Error, Result, reject, continue-ok, Bool-cases, ◌≡◌, subst, ap, ◌∙◌, inl, inr,
  arith,
}
use cascade_feed_ranking_eng.Common.Env.{LookupEnv}
use cascade_feed_ranking_eng.Feed.Float.{Float64}
use cascade_feed_ranking_eng.Feed.Config.{Config, Texts, is_refused, read_variables, load}

module _ {W : Type 0} (fl : Float64) (texts : Texts fl.F) (env : LookupEnv) where
  open fl use {F}

  -- Settings that were accepted are those of the variables, and passed the check.
  pub load-accepted :
      (c : Config F) (w : W)
      → (load fl texts env w).0 ≡ ok c
      → (is_refused c ≡ false) × ((read_variables fl texts env w).0 ≡ ok c)
  unfolding load
  load-accepted c w h =
      let (read, got, rest) = continue-ok (read_variables fl texts env w) _ c h in
      let w₁ = (read_variables fl texts env w).1 in
      let m : Result Error (Unit {0}) × W = reject (is_refused read) other w₁ in
      let (_, passed, last) = continue-ok m _ c rest in
      let same : read ≡ c = cc in
      elim (Bool-cases (is_refused read)) [
        | inl bad ↦ absurd (ground arith)
        | inr good ↦ (subst (λ x. is_refused x ≡ false) same good, got ∙ ap ok same)
      ]
