-- ===== src/Base/Lists.antt =====
-- Lists over the native numbers, and predicates on lists by recursion, which tactics read.
use Prim.Native.Nat.{ℕ, zero, suc, ◌+◌}
use mathlib.Core.Path.{◌≡◌}
use mathlib.Core.Bool.{Bool, true, false, ◌&&◌, ◌||◌}
use mathlib.Core.Option.{Option, none, some}
use mathlib.Core.List.{List, [], ◌∷◌, ◌++◌, map}
use mathlib.Core.Logic.{◌↔◌, inl, inr}
use native.Mathlib.Omega.{arith}
use uv_studio.Base.Tests.{if◌then◌else◌, Bool-cases}

module _ {ℓ} {A : Type ℓ} where
  abbrev pub length : List A → ℕ
  length [] = 0
  length (_ ∷ xs) = suc (length xs)

  abbrev pub get_elem? : List A → ℕ → Option A
  get_elem? [] _ = none
  get_elem? (x ∷ _) zero = some x
  get_elem? (_ ∷ xs) (suc i) = get_elem? xs i

  abbrev pub take : ℕ → List A → List A
  take zero _ = []
  take (suc n) [] = []
  take (suc n) (x ∷ xs) = x ∷ take n xs

  abbrev pub drop : ℕ → List A → List A
  drop zero xs = xs
  drop (suc n) [] = []
  drop (suc n) (x ∷ xs) = drop n xs

  pub length-append : (xs ys : List A) → length (xs ++ ys) ≡ length xs + length ys
  length-append [] ys = omega arith
  length-append (x ∷ xs) ys = omega (arith, length-append xs ys)

  -- `any(test(x) for x in xs)` and `all(...)`
  abbrev pub any : (A → Bool) → List A → Bool
  any test [] = false
  any test (x ∷ xs) = test x || any test xs

  abbrev pub all : (A → Bool) → List A → Bool
  all test [] = true
  all test (x ∷ xs) = test x && all test xs

  -- `next((x for x in xs if test(x)), None)`
  abbrev pub find? : (A → Bool) → List A → Option A
  find? test [] = none
  find? test (x ∷ xs) = if test x then some x else find? test xs

  -- `tuple(x for x in xs if test(x))`
  abbrev pub keep_if : (A → Bool) → List A → List A
  keep_if test [] = []
  keep_if test (x ∷ xs) = if test x then x ∷ keep_if test xs else keep_if test xs

  abbrev pub get_last? : List A → Option A
  get_last? [] = none
  get_last? (x ∷ []) = some x
  get_last? (_ ∷ y ∷ ys) = get_last? (y ∷ ys)

  -- `xs[:-1]`
  abbrev pub drop_last : List A → List A
  drop_last [] = []
  drop_last (_ ∷ []) = []
  drop_last (x ∷ y ∷ ys) = x ∷ drop_last (y ∷ ys)

module _ {ℓ κ} {A : Type ℓ} where
  abbrev pub All : (A → Type κ) → List A → Type κ
  All P [] = Unit
  All P (x ∷ xs) = P x × All P xs

  -- `R` between each element and all that follow it.
  abbrev pub AllPairs : (A → A → Type κ) → List A → Type κ
  AllPairs R [] = Unit
  AllPairs R (x ∷ xs) = All (R x) xs × AllPairs R xs

  pub All-append : (P : A → Type κ) (xs ys : List A) → All P xs → All P ys → All P (xs ++ ys)
  All-append P [] ys hx hy = hy
  All-append P (x ∷ xs) ys hx hy = (hx.0, All-append P xs ys hx.1 hy)

pub All-map {ℓ κ μ} :
    {A : Type ℓ} {P : A → Type κ} {Q : A → Type μ} (f : (x : A) → P x → Q x) (xs : List A)
    → All P xs
    → All Q xs
All-map f [] h = tt
All-map f (x ∷ xs) h = (f x h.0, All-map f xs h.1)

module _ {ℓ κ} {A : Type ℓ} where
  pub All-keep_if :
      (P : A → Type κ) (test : A → Bool) (xs : List A) → All P xs → All P (keep_if test xs)
  All-keep_if P test [] h = tt
  All-keep_if P test (x ∷ xs) h = elim (Bool-cases (test x)) [
    | inl e ↦ rw e (h.0, All-keep_if P test xs h.1)
    | inr e ↦ rw e (All-keep_if P test xs h.1)
  ]

  pub AllPairs-keep_if :
      (R : A → A → Type κ) (test : A → Bool) (xs : List A)
      → AllPairs R xs
      → AllPairs R (keep_if test xs)
  AllPairs-keep_if R test [] h = tt
  AllPairs-keep_if R test (x ∷ xs) h = elim (Bool-cases (test x)) [
    | inl e ↦ rw e (All-keep_if (R x) test xs h.0, AllPairs-keep_if R test xs h.1)
    | inr e ↦ rw e (AllPairs-keep_if R test xs h.1)
  ]

  pub All-append_last :
      (P : A → Type κ) (xs : List A) (y : A) → All P (xs ++ y ∷ []) ↔ (All P xs × P y)
  All-append_last P [] y = (λ h. (tt, h.0), λ h. (h.1, tt))
  All-append_last P (x ∷ xs) y = (
    λ h. let k = (All-append_last P xs y).0 h.1 in ((h.0, k.0), k.1),
    λ h. (h.0.0, (All-append_last P xs y).1 (h.0.1, h.1)),
  )

  pub AllPairs-append_last :
      (R : A → A → Type κ) (xs : List A) (y : A)
      → AllPairs R (xs ++ y ∷ []) ↔ (AllPairs R xs × All (λ x. R x y) xs)
  AllPairs-append_last R [] y = (λ h. (tt, tt), λ h. (tt, tt))
  AllPairs-append_last R (x ∷ xs) y = (
    λ h.
        let k = (AllPairs-append_last R xs y).0 h.1 in
        let q = (All-append_last (R x) xs y).0 h.0 in ((q.0, k.0), (q.1, k.1)),
    λ h. (
      (All-append_last (R x) xs y).1 (h.0.0, h.1.0),
      (AllPairs-append_last R xs y).1 (h.0.1, h.1.1),
    ),
  )

pub AllPairs-map {ℓ κ μ} :
    {A : Type ℓ} {R : A → A → Type κ} {S : A → A → Type μ} (f : (x y : A) → R x y → S x y)
    (xs : List A)
    → AllPairs R xs
    → AllPairs S xs
AllPairs-map f [] h = tt
AllPairs-map f (x ∷ xs) h = (All-map (f x) xs h.0, AllPairs-map f xs h.1)

-- Pairs of a mapped list.
pub All-of_map {ℓ ℓ' κ} :
    {A : Type ℓ} {B : Type ℓ'} (P : B → Type κ) (f : A → B) (xs : List A)
    → All P (map f xs) ↔ All (λ x. P (f x)) xs
All-of_map P f [] = (λ h. h, λ h. h)
All-of_map P f (x ∷ xs) =
    (λ h. (h.0, (All-of_map P f xs).0 h.1), λ h. (h.0, (All-of_map P f xs).1 h.1))

pub AllPairs-of_map {ℓ ℓ' κ} :
    {A : Type ℓ} {B : Type ℓ'} (R : B → B → Type κ) (f : A → B) (xs : List A)
    → AllPairs R (map f xs) ↔ AllPairs (λ x y. R (f x) (f y)) xs
AllPairs-of_map R f [] = (λ h. h, λ h. h)
AllPairs-of_map R f (x ∷ xs) = (
  λ h. ((All-of_map (R (f x)) f xs).0 h.0, (AllPairs-of_map R f xs).0 h.1),
  λ h. ((All-of_map (R (f x)) f xs).1 h.0, (AllPairs-of_map R f xs).1 h.1),
)

-- `x in xs`, with its place
pub data In {ℓ} {A : Type ℓ} (x : A) : List A → Type ℓ where
  here : {xs : List A} → In x (x ∷ xs)
  there : {y : A} {xs : List A} → In x xs → In x (y ∷ xs)

module _ {ℓ} {A : Type ℓ} {x : A} where
  pub All-In {κ} : (P : A → Type κ) {xs : List A} → All P xs → In x xs → P x
  All-In P h here = h.0
  All-In P h (there m) = All-In P h.1 m

  pub In-append_left : {xs : List A} (ys : List A) → In x xs → In x (xs ++ ys)
  In-append_left ys here = here
  In-append_left ys (there m) = there (In-append_left ys m)

  pub In-append_right : (xs : List A) {ys : List A} → In x ys → In x (xs ++ ys)
  In-append_right [] m = m
  In-append_right (_ ∷ xs) m = there (In-append_right xs m)

module _ {ℓ κ} {A : Type ℓ} where
  pub All-of_append : (P : A → Type κ) (xs ys : List A) → All P (xs ++ ys) → All P xs × All P ys
  All-of_append P [] ys h = (tt, h)
  All-of_append P (x ∷ xs) ys h = let (a, b) = All-of_append P xs ys h.1 in ((h.0, a), b)

  -- Pairs within the first part, within the second, and across.
  pub AllPairs-of_append :
      (R : A → A → Type κ) (xs ys : List A)
      → AllPairs R (xs ++ ys)
      → AllPairs R xs × AllPairs R ys × All (λ x. All (R x) ys) xs
  AllPairs-of_append R [] ys h = (tt, h, tt)
  AllPairs-of_append R (x ∷ xs) ys h =
      let (a, b) = All-of_append (R x) xs ys h.0 in
      let (p, q, r) = AllPairs-of_append R xs ys h.1 in ((a, p), q, (b, r))

  -- Pairs within each part and across make the pairs of both.
  pub AllPairs-append :
      (R : A → A → Type κ) (xs ys : List A)
      → AllPairs R xs
      → AllPairs R ys
      → All (λ x. All (R x) ys) xs
      → AllPairs R (xs ++ ys)
  AllPairs-append R [] ys p q h = q
  AllPairs-append R (x ∷ xs) ys p q h =
      (All-append (R x) xs ys p.0 h.0, AllPairs-append R xs ys p.1 q h.1)

pub In-All {ℓ κ} :
    {A : Type ℓ} (P : A → Type κ) (xs : List A) → ((x : A) → In x xs → P x) → All P xs
In-All P [] h = tt
In-All P (x ∷ xs) h = (h x In.here, In-All P xs (λ y m. h y (In.there m)))
