-- ===== src/Base/Keyed.antt =====
-- Items with text keys: finding one by its key, and membership of texts.
use mathlib.Core.Path.{◌≡◌, refl, sym, subst, ap, ◌∙◌}
use mathlib.Core.Logic.{◌≢◌, ◌⊎◌, ◌↔◌, inl, inr}
use mathlib.Core.Bool.{Bool, true, false, ◌||◌}
use mathlib.Core.Option.{none, some}
use mathlib.Core.List.{List, [], ◌∷◌, map}
use native.Mathlib.Omega.{arith}
use uv_studio.Base.Tests.{Bool-cases}
use uv_studio.Base.Lists.{
  find?, any, All, AllPairs, AllPairs-map, AllPairs-of_map, All-In, In, here, there,
}
use uv_studio.Base.Texts.{Text, ◌==◌, text_eq_iff, text_eq_ne, text_eq_refl, contains}

or-eq-false : (a b : Bool) → a || b ≡ false → (a ≡ false) × (b ≡ false)
or-eq-false true b h = cc
or-eq-false false b h = (refl, h)

pub text_cases : (s t : Text) → (s ≡ t) ⊎ (s ≢ t)
text_cases s t = elim (Bool-cases (s == t)) [
  | inl e ↦ inl ((text_eq_iff s t).0 e)
  | inr e ↦ inr (λ same. ground (arith, text_eq_iff s t))
]

pub contains-In : (s : Text) (ts : List Text) → contains s ts ≡ true → In s ts
unfolding contains
contains-In s [] h = cc
contains-In s (t ∷ ts) h = elim (Bool-cases (s == t)) [
  | inl e ↦ subst (λ (u : Text). In s (u ∷ ts)) ((text_eq_iff s t).0 e) here
  | inr e ↦ there (contains-In s ts (ground arith))
]

pub contains-of_In : (s : Text) (ts : List Text) → In s ts → contains s ts ≡ true
unfolding contains
contains-of_In s [] m = elim m [ ]
contains-of_In s (t ∷ ts) here = rw (text_eq_refl s) refl
contains-of_In s (t ∷ ts) (there m) = ground (arith, contains-of_In s ts m)

pub In-map {ℓ κ} :
    {A : Type ℓ} {B : Type κ} (f : A → B) {x : A} {xs : List A} → In x xs → In (f x) (map f xs)
In-map f here = here
In-map f (there m) = there (In-map f m)

pub In-of_map {ℓ κ} :
    {A : Type ℓ} {B : Type κ} (f : A → B) {y : B} (xs : List A)
    → In y (map f xs)
    → (x : A) × In x xs × (f x ≡ y)
In-of_map f [] m = elim m [ ]
In-of_map f (x ∷ xs) here = (x, here, refl)
In-of_map f (x ∷ xs) (there m) = let (z, k, e) = In-of_map f xs m in (z, there k, e)

module _ {A : Type 0} (key : A → Text) where
  -- `by_key.get(key(x))`, where no other item has that key
  pub find_unique :
      (xs : List A) (x : A)
      → AllPairs (λ a b. key a ≢ key b) xs
      → In x xs
      → find? (λ a. key a == key x) xs ≡ some x
  find_unique [] x h m = elim m [ ]
  find_unique (x ∷ xs) _ h here = rw (text_eq_refl (key x)) refl
  find_unique (a ∷ xs) x h (there m) =
      rw (text_eq_ne (key a) (key x) (All-In (λ b. key a ≢ key b) h.0 m)) (find_unique xs x h.1 m)

  pub find-found :
      (xs : List A) (id : Text) (x : A)
      → find? (λ a. key a == id) xs ≡ some x
      → In x xs × (key x ≡ id)
  find-found [] id x h = cc
  find-found (a ∷ xs) id x h = elim (Bool-cases (key a == id)) [
    | inl e ↦
        let same : a ≡ x = ground arith in
        subst (λ (y : A). In y (a ∷ xs) × (key y ≡ id)) same (here, (text_eq_iff (key a) id).0 e)
    | inr e ↦ let (m, n) = find-found xs id x (ground arith) in (there m, n)
  ]

  pub find-absent :
      (xs : List A) (id : Text) → All (λ x. key x ≢ id) xs → find? (λ a. key a == id) xs ≡ none
  find-absent [] id h = refl
  find-absent (x ∷ xs) id h = rw (text_eq_ne (key x) id h.0) (find-absent xs id h.1)

  -- Two items of one key are one item.
  pub In-same_key :
      (xs : List A) (x y : A)
      → AllPairs (λ a b. key a ≢ key b) xs
      → In x xs
      → In y xs
      → key x ≡ key y
      → x ≡ y
  In-same_key [] x y h m k e = elim m [ ]
  In-same_key (x ∷ xs) _ _ h here here e = refl
  In-same_key (x ∷ xs) _ y h here (there k) e = absurd (All-In (λ b. key x ≢ key b) h.0 k e)
  In-same_key (y ∷ xs) x _ h (there m) here e = absurd (All-In (λ b. key y ≢ key b) h.0 m (sym e))
  In-same_key (z ∷ xs) x y h (there m) (there k) e = In-same_key xs x y h.1 m k e

  -- `any(item.key == id for item in items)` finds none.
  pub any-false_iff :
      (xs : List A) (id : Text) → (any (λ x. key x == id) xs ≡ false) ↔ All (λ x. key x ≢ id) xs
  any-false_iff [] id = (λ h. tt, λ h. refl)
  any-false_iff (x ∷ xs) id = (
    λ h.
        let (a, b) = or-eq-false (key x == id) (any (λ x. key x == id) xs) h in
        ((λ e. absurd (ground (arith, text_eq_iff (key x) id))), (any-false_iff xs id).0 b),
    λ h. rw (text_eq_ne (key x) id h.0, (any-false_iff xs id).1 h.1) refl,
  )

  -- Items that change but not their keys keep them different.
  pub AllPairs-same_keys :
      (f : A → A) (xs : List A)
      → ((x : A) → key (f x) ≡ key x)
      → AllPairs (λ a b. key a ≢ key b) xs
      → AllPairs (λ a b. key a ≢ key b) (map f xs)
  AllPairs-same_keys f xs i h =
      (AllPairs-of_map (λ a b. key a ≢ key b) f xs).1
        (AllPairs-map {R = λ a b. key a ≢ key b} (λ a b n q. n (sym (i a) ∙ q ∙ i b)) xs h)

  -- An item that is found is found again where items change but not their keys.
  pub find-map :
      (f : A → A) (xs : List A) (id : Text) (x : A)
      → ((x : A) → key (f x) ≡ key x)
      → find? (λ a. key a == id) xs ≡ some x
      → find? (λ a. key a == id) (map f xs) ≡ some (f x)
  find-map f [] id x i h = cc
  find-map f (a ∷ xs) id x i h = elim (Bool-cases (key a == id)) [
    | inl e ↦ let same : a ≡ x = ground arith in rw (i a, e) (ap (λ y. some (f y)) same)
    | inr e ↦ rw (i a, e) (find-map f xs id x i (ground arith))
  ]
