-- ===== src/Common/Env/Trim.antt =====
-- `strings.TrimSpace`: what it leaves starts and ends with no space.
use Prim.Native.Nat.{ℕ, zero, suc, ◌≤◌, ◌<◌}
use mathlib.Core.Path.{◌≡◌, refl, sym, ap, ◌∙◌}
use mathlib.Core.Logic.{inl, inr}
use mathlib.Core.Bool.{false}
use mathlib.Core.Option.{none, some}
use mathlib.Core.List.{List, [], ◌∷◌, ◌++◌, map, append_assoc, append-nil}
use native.Mathlib.Omega.{arith}
use cascade_feed_ranking_eng.Common.Tests.{◌==◌, Bool-cases, Option-cases}
use cascade_feed_ranking_eng.Common.Lists.{Bytes, length, length-append, is_empty, All}
use cascade_feed_ranking_eng.Common.Env.{
  spaces, reverse_onto, reverse, strip, strip_any, trim_rounds, trim_left, trim_space,
}

reverse_onto_lem : (s out : Bytes) → reverse_onto s out ≡ reverse s ++ out
unfolding reverse_onto reverse
reverse_onto_lem [] out = refl
reverse_onto_lem (c ∷ s) out =
    reverse_onto_lem s (c ∷ out)
    ∙ sym (append_assoc (reverse_onto s []) (c ∷ []) out)
    ∙ ap (λ l. l ++ out) (sym (reverse_onto_lem s (c ∷ [])))

reverse-cons : (c : ℕ) (s : Bytes) → reverse (c ∷ s) ≡ reverse s ++ c ∷ []
unfolding reverse_onto reverse
reverse-cons c s = reverse_onto_lem s (c ∷ [])

reverse-append : (s t : Bytes) → reverse (s ++ t) ≡ reverse t ++ reverse s
unfolding reverse_onto reverse
reverse-append [] t = sym (append-nil (reverse t))
reverse-append (c ∷ s) t =
    reverse-cons c (s ++ t)
    ∙ ap (λ l. l ++ c ∷ []) (reverse-append s t)
    ∙ append_assoc (reverse t) (reverse s) (c ∷ [])
    ∙ ap (λ l. reverse t ++ l) (sym (reverse-cons c s))

pub reverse-reverse : (s : Bytes) → reverse (reverse s) ≡ s
unfolding reverse_onto reverse
reverse-reverse [] = refl
reverse-reverse (c ∷ s) =
    ap reverse (reverse-cons c s)
    ∙ reverse-append (reverse s) (c ∷ [])
    ∙ ap (λ l. c ∷ l) (reverse-reverse s)

strip-some : (p s t : Bytes) → strip p s ≡ some t → s ≡ p ++ t
unfolding strip
strip-some [] s t h = cc
strip-some (c ∷ p) [] t h = cc
strip-some (c ∷ p) (d ∷ s) t h = elim (Bool-cases (c == d)) [
  | inl same ↦ let e : c ≡ d = ground arith in cc (e, strip-some p s t (ground arith))
  | inr differ ↦ absurd (ground arith)
]

strip-append : (p s t y : Bytes) → strip p s ≡ some t → strip p (s ++ y) ≡ some (t ++ y)
unfolding strip
strip-append [] s t y h = cc
strip-append (c ∷ p) [] t y h = cc
strip-append (c ∷ p) (d ∷ s) t y h = elim (Bool-cases (c == d)) [
  | inl same ↦ rw same (strip-append p s t y (ground arith))
  | inr differ ↦ absurd (ground arith)
]

nonempty : (p : Bytes) → is_empty p ≡ false → 0 < length p
nonempty [] h = cc
nonempty (c ∷ p) h = omega arith

-- The rest of one of the prefixes.
strip_any-some :
    (ps : List Bytes) (s t : Bytes)
    → strip_any ps s ≡ some t
    → All (λ p. is_empty p ≡ false) ps
    → (x : Bytes) × (s ≡ x ++ t) × (length t < length s)
unfolding strip_any
strip_any-some [] s t h a = cc
strip_any-some (p ∷ ps) s t h a = elim (Option-cases (strip p s)) [
  | inl missing ↦ strip_any-some ps s t (ground arith) a.1
  | inr (u, found) ↦
      let same : u ≡ t = ground arith in
      let e = strip-some p s t (found ∙ ap some same) in
      (p, e, omega (arith, ap length e, length-append p t, nonempty p a.0))
]

strip_any-append :
    (ps : List Bytes) (s t y : Bytes)
    → strip_any ps s ≡ some t
    → (u : Bytes) × (strip_any ps (s ++ y) ≡ some u)
unfolding strip_any
strip_any-append [] s t y h = cc
strip_any-append (p ∷ ps) s t y h = elim (Option-cases (strip p s)) [
  | inr (u, found) ↦ (u ++ y, rw (strip-append p s u y found, strip_any) refl)
  | inl missing ↦ elim (Option-cases (strip p (s ++ y))) [
    | inr (u, found) ↦ (u, rw (found, strip_any) refl)
    | inl absent ↦
        let (u, found) = strip_any-append ps s t y (ground arith) in
        (u, rw (absent, strip_any) found)
  ]
]

module _ (ps : List Bytes) (ne : All (λ p. is_empty p ≡ false) ps) where
  trim_rounds_lem :
      (fuel : ℕ) (s : Bytes)
      → length s ≤ fuel
      → (strip_any ps (trim_rounds ps fuel s) ≡ none)
        × ((x : Bytes) × (s ≡ x ++ trim_rounds ps fuel s))
  unfolding trim_rounds
  trim_rounds_lem zero s h = elim (Option-cases (strip_any ps s)) [
    | inl done ↦ (done, ([], refl))
    | inr (t, more) ↦ let (x, e, less) = strip_any-some ps s t more ne in absurd (omega arith)
  ]
  trim_rounds_lem (suc fuel) s h = elim (Option-cases (strip_any ps s)) [
    | inl done ↦ rw (done, trim_rounds) (done, ([], refl))
    | inr (t, more) ↦
        let (x, e, less) = strip_any-some ps s t more ne in
        let (last, (y, rest)) = trim_rounds_lem fuel t (omega arith) in
        rw (more, trim_rounds)
          (
            last,
            (x ++ y, e ∙ ap (λ l. x ++ l) rest ∙ sym (append_assoc x y (trim_rounds ps fuel t))),
          )
  ]

  -- What is left starts with no prefix, and only the front was taken away.
  pub trim_left_lem :
      (s : Bytes)
      → (strip_any ps (trim_left ps s) ≡ none) × ((x : Bytes) × (s ≡ x ++ trim_left ps s))
  unfolding trim_left
  trim_left_lem s = trim_rounds_lem (length s) s (omega arith)

  -- A text that starts with no prefix is kept.
  pub trim_left-none : (s : Bytes) → strip_any ps s ≡ none → trim_left ps s ≡ s
  unfolding trim_left trim_rounds
  trim_left-none [] h = refl
  trim_left-none (c ∷ s) h = rw (h, trim_rounds) refl

spaces_nonempty : All (λ p. is_empty p ≡ false) spaces
spaces_nonempty = ground arith

reversed_nonempty : All (λ p. is_empty p ≡ false) (map reverse spaces)
unfolding reverse reverse_onto
reversed_nonempty = ground arith

-- TrimSpace cuts a front and an end off, and changes nothing if it is used again.
pub trim_space_lem :
    (s : Bytes)
    → (trim_space (trim_space s) ≡ trim_space s)
      × ((x : Bytes) × (y : Bytes) × (s ≡ x ++ (trim_space s ++ y)))
unfolding trim_space
trim_space_lem s =
    let l = trim_left spaces s in
    let r = trim_left (map reverse spaces) (reverse l) in
    let (start, (x, cut_x)) = trim_left_lem spaces spaces_nonempty s in
    let (end_, (y, cut_y)) = trim_left_lem (map reverse spaces) reversed_nonempty (reverse l) in
    let kept : l ≡ reverse r ++ reverse y =
      sym (reverse-reverse l) ∙ ap reverse cut_y ∙ reverse-append y r in
    let no_start : strip_any spaces (reverse r) ≡ none =
      elim (Option-cases (strip_any spaces (reverse r))) [
        | inl absent ↦ absent
        | inr (t, found) ↦
            let (u, bad) = strip_any-append spaces (reverse r) t (reverse y) found in
            absurd (let here = sym (ap (strip_any spaces) kept ∙ bad) ∙ start in cc)
      ] in
    (
      ap (λ k. reverse (trim_left (map reverse spaces) (reverse k)))
            (trim_left-none spaces spaces_nonempty (reverse r) no_start)
          ∙ ap (λ k. reverse (trim_left (map reverse spaces) k)) (reverse-reverse r)
          ∙ ap reverse (trim_left-none (map reverse spaces) reversed_nonempty r end_),
      (x, reverse y, cut_x ∙ ap (λ k. x ++ k) kept),
    )
