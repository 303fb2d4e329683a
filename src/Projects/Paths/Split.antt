-- ===== src/Projects/Paths/Split.antt =====
-- `PurePosixPath(text).parts` and `as_posix` for a relative path: empty and `.` components are
-- dropped, the others are joined by `/`, and the empty path is written `.`.
use uv_studio.Base.{
  ℕ, ◌≡◌, refl, ◌≢◌, Bool, true, not, ◌||◌, List, [], ◌∷◌, ◌++◌, map, arith, Text, codes, ◌==◌,
  nat_eq, is_empty, keep_if, if◌then◌else◌, All, All-append, Bool-cases, inl, inr, ◌∙◌, ap,
}

-- `value.replace("\\", "/")`
unfoldable pub to_slashes : Text → Text
to_slashes = map (λ c. if nat_eq c 92 then b'/' else c)

abbrev pub push : ℕ → List Text → List Text
push c [] = (c ∷ []) ∷ []
push c (s ∷ ss) = (c ∷ s) ∷ ss

-- `text.split("/")`
unfoldable pub split : Text → List Text
split [] = [] ∷ []
split (c ∷ s) = if nat_eq c b'/' then [] ∷ split s else push c (split s)

-- A component that `PurePosixPath` keeps.
unfoldable pub is_component : Text → Bool
is_component s = not (is_empty s || s == codes ".")

unfoldable pub parts : Text → List Text
unfolding split is_component
parts text = keep_if is_component (split text)

-- `"/".join(items)`
unfoldable pub join : List Text → Text
join [] = []
join (s ∷ []) = s
join (s ∷ t ∷ ts) = s ++ (b'/' ∷ join (t ∷ ts))

unfoldable pub as_posix : List Text → Text
unfolding join
as_posix [] = codes "."
as_posix (s ∷ ss) = join (s ∷ ss)

-- A text with no slash.
abbrev pub NoSlash : Text → Type 0
NoSlash = All (λ c. c ≢ b'/')

module _ {κ} (P : ℕ → Type κ) where
  push-All : (c : ℕ) (ss : List Text) → P c → All (All P) ss → All (All P) (push c ss)
  push-All c [] h k = ((h, tt), tt)
  push-All c (s ∷ ss) h k = ((h, k.0), k.1)

  -- Splitting keeps what holds of every character.
  pub split-All : (s : Text) → All P s → All (All P) (split s)
  unfolding split
  split-All [] h = (tt, tt)
  split-All (c ∷ s) h = elim (Bool-cases (nat_eq c b'/')) [
    | inl e ↦ rw e (tt, split-All s h.1)
    | inr e ↦ rw e (push-All c (split s) h.0 (split-All s h.1))
  ]

  pub join-All : P b'/' → (ss : List Text) → All (All P) ss → All P (join ss)
  unfolding join
  join-All slash [] h = tt
  join-All slash (s ∷ []) h = h.0
  join-All slash (s ∷ t ∷ ts) h =
      All-append P s (b'/' ∷ join (t ∷ ts)) h.0 (slash, join-All slash (t ∷ ts) h.1)

pub keep_if-All {ℓ κ} :
    {A : Type ℓ} (P : A → Type κ) (test : A → Bool) (xs : List A)
    → All P xs
    → All P (keep_if test xs)
keep_if-All P test [] h = tt
keep_if-All P test (x ∷ xs) h = elim (Bool-cases (test x)) [
  | inl e ↦ rw e (h.0, keep_if-All P test xs h.1)
  | inr e ↦ rw e (keep_if-All P test xs h.1)
]

pub split-NoSlash : (s : Text) → All NoSlash (split s)
unfolding split
split-NoSlash [] = (tt, tt)
split-NoSlash (c ∷ s) = elim (Bool-cases (nat_eq c b'/')) [
  | inl e ↦ rw e (tt, split-NoSlash s)
  | inr e ↦ rw e (push-All (λ d. d ≢ b'/') c (split s) (ground arith) (split-NoSlash s))
]

-- A part is a component with no slash in it.
abbrev pub IsPart : Text → Type 0
IsPart s = NoSlash s × (is_component s ≡ true)

keep_if-IsPart : (ss : List Text) → All NoSlash ss → All IsPart (keep_if is_component ss)
keep_if-IsPart [] h = tt
keep_if-IsPart (s ∷ ss) h = elim (Bool-cases (is_component s)) [
  | inl e ↦ rw e ((h.0, e), keep_if-IsPart ss h.1)
  | inr e ↦ rw e (keep_if-IsPart ss h.1)
]

pub parts-IsPart : (s : Text) → All IsPart (parts s)
unfolding parts
parts-IsPart s = keep_if-IsPart (split s) (split-NoSlash s)

split_one : (s : Text) → NoSlash s → split s ≡ s ∷ []
unfolding split
split_one [] h = refl
split_one (c ∷ s) h = ground (arith, split_one s h.1)

split_step : (s rest : Text) → NoSlash s → split (s ++ (b'/' ∷ rest)) ≡ s ∷ split rest
unfolding split
split_step [] rest h = refl
split_step (c ∷ s) rest h = ground (arith, split_step s rest h.1)

-- Splitting what `join` made of slash-free components gives them back.
pub split-join : (s : Text) (ss : List Text) → All NoSlash (s ∷ ss) → split (join (s ∷ ss)) ≡ s ∷ ss
unfolding join
split-join s [] h = split_one s h.0
split-join s (t ∷ ts) h = split_step s (join (t ∷ ts)) h.0 ∙ ap (◌∷◌ s) (split-join t ts h.1)
