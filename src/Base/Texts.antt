-- ===== src/Base/Texts.antt =====
-- Python's `str`: a sequence of code points, with the comparisons and methods that the code uses.
use Prim.Native.Nat.{ℕ, zero, suc, ◌+◌, ◌<◌, ◌/◌, ◌%◌}
use Prim.Native.Char.{code}
use Prim.Native.String.{String}
use mathlib.Core.Path.{◌≡◌, refl, sym, ◌∙◌}
use mathlib.Core.Logic.{◌≢◌, ◌↔◌}
use mathlib.Core.Bool.{Bool, true, false, not, ◌&&◌, ◌||◌}
use mathlib.Core.List.{List, [], ◌∷◌, ◌++◌, reverse}
use native.Mathlib.Omega.{arith}
use uv_studio.Base.Tests.{ltb, leb, nat_eq, if◌then◌else◌}
use uv_studio.Base.Lists.{length, All, AllPairs}

abbrev pub Text : Type 0
Text = List ℕ

-- A text written as a literal.
abbrev pub codes : String → Text
codes String.[] = []
codes (String.◌∷◌ c s) = code c ∷ codes s

infix 50 ◌==◌
unfoldable pub ◌==◌ : Text → Text → Bool
[] == [] = true
[] == (_ ∷ _) = false
(_ ∷ _) == [] = false
(a ∷ s) == (b ∷ t) = nat_eq a b && s == t

pub text_eq_iff : (s t : Text) → (s == t ≡ true) ↔ (s ≡ t)
unfolding ◌==◌
text_eq_iff [] [] = (λ h. refl, λ h. refl)
text_eq_iff [] (b ∷ t) = (λ h. cc, λ h. cc)
text_eq_iff (a ∷ s) [] = (λ h. cc, λ h. cc)
text_eq_iff (a ∷ s) (b ∷ t) =
    (λ h. ground (arith, text_eq_iff s t), λ h. ground (arith, text_eq_iff s t))

pub text_eq_refl : (s : Text) → s == s ≡ true
text_eq_refl s = (text_eq_iff s s).1 refl

pub text_eq_ne : (s t : Text) → s ≢ t → s == t ≡ false
text_eq_ne s t h = ground (arith, text_eq_iff s t)

-- `s < t`, by code points
unfoldable pub text_lt : Text → Text → Bool
text_lt _ [] = false
text_lt [] (_ ∷ _) = true
text_lt (a ∷ s) (b ∷ t) = ltb a b || (nat_eq a b && text_lt s t)

pub text_lt_irrefl : (s : Text) → text_lt s s ≡ false
unfolding text_lt
text_lt_irrefl [] = refl
text_lt_irrefl (a ∷ s) = ground (arith, text_lt_irrefl s)

pub text_lt_trans : (s t u : Text) → text_lt s t ≡ true → text_lt t u ≡ true → text_lt s u ≡ true
unfolding text_lt
text_lt_trans s [] u h k = absurd (not_below s h)
  where
    not_below : (s : Text) → ¬ (text_lt s [] ≡ true)
    not_below [] h = cc
    not_below (_ ∷ _) h = cc
text_lt_trans s (b ∷ t) [] h k = cc
text_lt_trans [] (b ∷ t) (c ∷ u) h k = refl
text_lt_trans (a ∷ s) (b ∷ t) (c ∷ u) h k = ground (arith, text_lt_trans s t u)

-- Two texts that are not in order either way are equal.
pub text_lt_connex : (s t : Text) → text_lt s t ≡ false → text_lt t s ≡ false → s ≡ t
unfolding text_lt
text_lt_connex [] [] h k = refl
text_lt_connex [] (b ∷ t) h k = cc
text_lt_connex (a ∷ s) [] h k = cc
text_lt_connex (a ∷ s) (b ∷ t) h k = ground (arith, text_lt_connex s t)

pub text_lt_asym : (s t : Text) → text_lt s t ≡ true → text_lt t s ≡ false
unfolding text_lt
text_lt_asym [] [] h = cc
text_lt_asym [] (b ∷ t) h = refl
text_lt_asym (a ∷ s) [] h = cc
text_lt_asym (a ∷ s) (b ∷ t) h = ground (arith, text_lt_asym s t)

pub text_lt_neg_trans :
    (s t u : Text) → text_lt t s ≡ false → text_lt u t ≡ false → text_lt u s ≡ false
unfolding text_lt
text_lt_neg_trans [] [] [] h k = refl
text_lt_neg_trans [] [] (c ∷ u) h k = refl
text_lt_neg_trans [] (b ∷ t) [] h k = refl
text_lt_neg_trans [] (b ∷ t) (c ∷ u) h k = refl
text_lt_neg_trans (a ∷ s) [] u h k = cc
text_lt_neg_trans (a ∷ s) (b ∷ t) [] h k = cc
text_lt_neg_trans (a ∷ s) (b ∷ t) (c ∷ u) h k = ground (arith, text_lt_neg_trans s t u)

-- `str.isspace` of one character
unfoldable pub is_space : ℕ → Bool
is_space c =
    (leb 9 c && leb c 13)
    || (leb 28 c && leb c 32)
    || nat_eq c 0x85
    || nat_eq c 0xa0
    || nat_eq c 0x1680
    || (leb 0x2000 c && leb c 0x200a)
    || nat_eq c 0x2028
    || nat_eq c 0x2029
    || nat_eq c 0x202f
    || nat_eq c 0x205f
    || nat_eq c 0x3000

unfoldable pub strip_left : Text → Text
strip_left [] = []
strip_left (c ∷ s) = if is_space c then strip_left s else c ∷ s

-- `str.strip()`
unfoldable pub strip : Text → Text
unfolding strip_left
strip s = reverse (strip_left (reverse (strip_left s)))

abbrev pub is_empty : Text → Bool
is_empty [] = true
is_empty (_ ∷ _) = false

-- `item in items`
unfoldable pub contains : Text → List Text → Bool
contains s [] = false
contains s (t ∷ ts) = s == t || contains s ts

-- `set(items)`
unfoldable pub to_set : List Text → List Text
to_set [] = []
to_set (s ∷ ts) = if contains s ts then to_set ts else s ∷ to_set ts

-- `len(items) == len(set(items))`
unfoldable pub all_distinct : List Text → Bool
unfolding to_set
all_distinct ts = nat_eq (length ts) (length (to_set ts))

length-to_set-le : (ts : List Text) → length (to_set ts) < length ts + 1
unfolding to_set
length-to_set-le [] = omega arith
length-to_set-le (s ∷ ts) = ground (arith, length-to_set-le ts)

all_distinct-cons :
    (s : Text) (ts : List Text) → all_distinct (s ∷ ts) ≡ (not (contains s ts) && all_distinct ts)
unfolding all_distinct to_set
all_distinct-cons s ts = ground (arith, length-to_set-le ts)

pub contains-false_iff : (s : Text) (ts : List Text) → (contains s ts ≡ false) ↔ All (λ t. s ≢ t) ts
unfolding contains
contains-false_iff s [] = (λ h. tt, λ h. refl)
contains-false_iff s (t ∷ ts) = (
  λ h. (λ e. ground (arith, text_eq_iff s t), (contains-false_iff s ts).0 (ground arith)),
  λ h. ground (arith, text_eq_ne s t h.0, (contains-false_iff s ts).1 h.1),
)

-- Comparing a list's length with its set's length tests that no two items are equal.
pub all_distinct_iff : (ts : List Text) → (all_distinct ts ≡ true) ↔ AllPairs (λ s t. s ≢ t) ts
all_distinct_iff [] = (λ h. tt, λ h. unfold all_distinct to_set in refl)
all_distinct_iff (s ∷ ts) = (
  λ h.
      let k : (not (contains s ts) && all_distinct ts) ≡ true = sym (all_distinct-cons s ts) ∙ h in
      ((contains-false_iff s ts).0 (ground arith), (all_distinct_iff ts).0 (ground arith)),
  λ h.
      rw (all_distinct-cons s ts, (contains-false_iff s ts).1 h.0, (all_distinct_iff ts).1 h.1)
        refl,
)

-- `str(n)` of a number below 10 ^ fuel
decimal_upto : ℕ → ℕ → Text
decimal_upto zero n = []
decimal_upto (suc f) n =
    let front = decimal_upto f (n / 10) in
    if ltb n 10 then (n + b'0') ∷ [] else front ++ (n % 10 + b'0') ∷ []

unfoldable pub decimal : ℕ → Text
unfolding decimal_upto
decimal n = decimal_upto (suc n) n
