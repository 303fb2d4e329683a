-- ===== src/Base/Strip.antt =====
-- Laws of `str.strip`.
use Prim.Native.Nat.{ℕ}
use mathlib.Core.Path.{◌≡◌, refl, ap, ◌∙◌}
use mathlib.Core.Bool.{false}
use mathlib.Core.List.{[], ◌∷◌, ◌++◌, reverse, reverse-append, reverse-reverse, reverse-cons}
use mathlib.Core.Logic.{◌⊎◌, inl, inr}
use uv_studio.Base.Tests.{Bool-cases}
use uv_studio.Base.Texts.{Text, is_space, strip_left, strip}

strip_left_last :
    (s : Text) (c : ℕ) → is_space c ≡ false → (t : Text) × (strip_left (s ++ c ∷ []) ≡ t ++ c ∷ [])
unfolding strip_left
strip_left_last [] c h = ([], rw h)
strip_left_last (d ∷ s) c h = elim (Bool-cases (is_space d)) [
  | inl e ↦ rw e (strip_left_last s c h)
  | inr e ↦ (d ∷ s, rw e)
]

-- A text that does not begin with a space keeps its first character.
pub strip-cons : (c : ℕ) (s : Text) → is_space c ≡ false → (t : Text) × (strip (c ∷ s) ≡ c ∷ t)
unfolding strip
strip-cons c s h =
    let (t, e) = strip_left_last (reverse s) c h in
    (reverse t, rw (h, strip_left, reverse-cons c s, e, reverse-append t (c ∷ [])) refl)

strip_left_cases :
    (s : Text)
    → (strip_left s ≡ []) ⊎ ((c : ℕ) × (t : Text) × (strip_left s ≡ c ∷ t) × (is_space c ≡ false))
unfolding strip_left
strip_left_cases [] = inl refl
strip_left_cases (c ∷ s) = elim (Bool-cases (is_space c)) [
  | inl e ↦ rw e (strip_left_cases s)
  | inr e ↦ inr (c, s, rw e, e)
]

strip_left_stop : (c : ℕ) (s : Text) → is_space c ≡ false → strip_left (c ∷ s) ≡ c ∷ s
unfolding strip_left
strip_left_stop c s h = rw h

strip_left_idem : (s : Text) → strip_left (strip_left s) ≡ strip_left s
strip_left_idem s = elim (strip_left_cases s) [
  | inl e ↦ rw e (unfold strip_left in refl)
  | inr (c, t, e, h) ↦ rw e (strip_left_stop c t h)
]

strip_left-strip : (s : Text) → strip_left (strip s) ≡ strip s
strip_left-strip s = elim (strip_left_cases s) [
  | inl e ↦ unfold strip in rw e (unfold strip_left in refl)
  | inr (c, t, e, h) ↦
      let (u, k) = strip-cons c t h in
      let same : strip s ≡ strip (c ∷ t) = unfold strip in rw (e, strip_left_stop c t h) refl in
      rw (same, k) (strip_left_stop c u h)
]

strip_of_stop : (s : Text) → strip_left s ≡ s → strip s ≡ reverse (strip_left (reverse s))
unfolding strip
strip_of_stop s h = ap (λ t. reverse (strip_left (reverse t))) h

strip_right_idem : (s : Text) → reverse (strip_left (reverse (strip s))) ≡ strip s
unfolding strip
strip_right_idem s =
    let t = strip_left (reverse (strip_left s)) in
    ap (λ u. reverse (strip_left u)) (reverse-reverse t)
    ∙ ap reverse (strip_left_idem (reverse (strip_left s)))

-- Stripping twice is stripping once.
pub strip_idem : (s : Text) → strip (strip s) ≡ strip s
strip_idem s = strip_of_stop (strip s) (strip_left-strip s) ∙ strip_right_idem s
