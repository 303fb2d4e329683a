-- ===== src/Base/Sort.antt =====
-- `sorted(items, key=...)`: a stable insertion sort by a Boolean "comes strictly before".
use mathlib.Core.Path.{◌≡◌}
use mathlib.Core.Logic.{◌↔◌, inl, inr}
use mathlib.Core.Bool.{Bool, true, false}
use mathlib.Core.List.{List, [], ◌∷◌, Perm}
use mathlib.Core.List.Perm
use mathlib.Core.Path.{refl}
use native.Mathlib.Omega.{arith}
use uv_studio.Base.Tests.{if◌then◌else◌, Bool-cases}
use uv_studio.Base.Lists.{All, AllPairs, All-map, All-keep_if, keep_if}

module _ {ℓ} {A : Type ℓ} (before : A → A → Bool) where
  unfoldable pub insert_sorted : A → List A → List A
  insert_sorted x [] = x ∷ []
  insert_sorted x (y ∷ ys) = if before y x then y ∷ insert_sorted x ys else x ∷ y ∷ ys

  unfoldable pub sort : List A → List A
  unfolding insert_sorted
  sort [] = []
  sort (x ∷ xs) = insert_sorted x (sort xs)

  insert_sorted-perm : (x : A) (ys : List A) → Perm (insert_sorted x ys) (x ∷ ys)
  unfolding insert_sorted
  insert_sorted-perm x [] = Perm.rfl
  insert_sorted-perm x (y ∷ ys) = elim (Bool-cases (before y x)) [
    | inl e ↦ rw e (Perm.trans (Perm.cons y (insert_sorted-perm x ys)) (Perm.swap x y ys))
    | inr e ↦ rw e Perm.rfl
  ]

  -- Sorting loses nothing and adds nothing.
  pub sort-perm : (xs : List A) → Perm (sort xs) xs
  unfolding sort
  sort-perm [] = Perm.rfl
  sort-perm (x ∷ xs) = Perm.trans (insert_sorted-perm x (sort xs)) (Perm.cons x (sort-perm xs))

  module _ {κ} (P : A → Type κ) where
    All-insert_sorted : (x : A) (ys : List A) → P x → All P ys → All P (insert_sorted x ys)
    unfolding insert_sorted
    All-insert_sorted x [] p h = (p, tt)
    All-insert_sorted x (y ∷ ys) p h = elim (Bool-cases (before y x)) [
      | inl e ↦ rw e (h.0, All-insert_sorted x ys p h.1)
      | inr e ↦ rw e (p, h)
    ]

    insert_sorted-All : (x : A) (ys : List A) → All P (insert_sorted x ys) → P x × All P ys
    unfolding insert_sorted
    insert_sorted-All x [] h = h
    insert_sorted-All x (y ∷ ys) h = elim (Bool-cases (before y x)) [
      | inl e ↦
          let k : P y × All P (insert_sorted x ys) = rw e at h in
          let r = insert_sorted-All x ys k.1 in (r.0, (k.0, r.1))
      | inr e ↦ rw e at h
    ]

    pub All-sort : (xs : List A) → All P xs ↔ All P (sort xs)
    unfolding sort
    All-sort [] = (λ h. h, λ h. h)
    All-sort (x ∷ xs) = (
      λ h. All-insert_sorted x (sort xs) h.0 ((All-sort xs).0 h.1),
      λ h. let r = insert_sorted-All x (sort xs) h in (r.0, (All-sort xs).1 r.1),
    )

  -- A symmetric relation between all pairs does not see the order.
  module _ {κ} (R : A → A → Type κ) (swap : (a b : A) → R a b → R b a) where
    AllPairs-insert_sorted :
        (x : A) (ys : List A) → All (R x) ys → AllPairs R ys → AllPairs R (insert_sorted x ys)
    unfolding insert_sorted
    AllPairs-insert_sorted x [] h k = (tt, tt)
    AllPairs-insert_sorted x (y ∷ ys) h k = elim (Bool-cases (before y x)) [
      | inl e ↦
          rw e
            (All-insert_sorted (R y) x ys (swap x y h.0) k.0, AllPairs-insert_sorted x ys h.1 k.1)
      | inr e ↦ rw e (h, k)
    ]

    insert_sorted-AllPairs :
        (x : A) (ys : List A) → AllPairs R (insert_sorted x ys) → All (R x) ys × AllPairs R ys
    unfolding insert_sorted
    insert_sorted-AllPairs x [] h = h
    insert_sorted-AllPairs x (y ∷ ys) h = elim (Bool-cases (before y x)) [
      | inl e ↦
          let k : All (R y) (insert_sorted x ys) × AllPairs R (insert_sorted x ys) = rw e at h in
          let r = insert_sorted-All (R y) x ys k.0 in
          let q = insert_sorted-AllPairs x ys k.1 in ((swap y x r.0, q.0), (r.1, q.1))
      | inr e ↦ rw e at h
    ]

    pub AllPairs-sort : (xs : List A) → AllPairs R xs ↔ AllPairs R (sort xs)
    unfolding sort
    AllPairs-sort [] = (λ h. h, λ h. h)
    AllPairs-sort (x ∷ xs) = (
      λ h.
          AllPairs-insert_sorted x (sort xs) ((All-sort (R x) xs).0 h.0) ((AllPairs-sort xs).0 h.1),
      λ h.
          let r = insert_sorted-AllPairs x (sort xs) h in
          ((All-sort (R x) xs).1 r.0, (AllPairs-sort xs).1 r.1),
    )

  abbrev pub IsAscending : List A → Type 0
  IsAscending = AllPairs (λ a b. before b a ≡ false)

  -- The result ascends: no later item comes strictly before an earlier one.
  module _ (trans : (a b c : A) → before b a ≡ false → before c b ≡ false → before c a ≡ false)
      (asym : (a b : A) → before a b ≡ true → before b a ≡ false) where
    insert_sorted-IsAscending :
        (x : A) (ys : List A) → IsAscending ys → IsAscending (insert_sorted x ys)
    unfolding insert_sorted
    insert_sorted-IsAscending x [] h = (tt, tt)
    insert_sorted-IsAscending x (y ∷ ys) h = elim (Bool-cases (before y x)) [
      | inl e ↦ rw e (
        All-insert_sorted (λ c. before c y ≡ false) x ys (asym y x e) h.0,
        insert_sorted-IsAscending x ys h.1,
      )
      | inr e ↦ rw e ((e, All-map (λ c k. trans x y c e k) ys h.0), h)
    ]

    pub sort-IsAscending : (xs : List A) → IsAscending (sort xs)
    unfolding sort
    sort-IsAscending [] = tt
    sort-IsAscending (x ∷ xs) = insert_sorted-IsAscending x (sort xs) (sort-IsAscending xs)

    insert_sorted-eq_cons :
        (x : A) (ys : List A) → All (λ y. before y x ≡ false) ys → insert_sorted x ys ≡ x ∷ ys
    unfolding insert_sorted
    insert_sorted-eq_cons x [] h = refl
    insert_sorted-eq_cons x (y ∷ ys) h = rw h.0 refl

    -- Sorting an ascending list changes nothing.
    pub sort_of_IsAscending : (xs : List A) → IsAscending xs → sort xs ≡ xs
    unfolding sort
    sort_of_IsAscending [] h = refl
    sort_of_IsAscending (x ∷ xs) h =
        rw (sort_of_IsAscending xs h.1) (insert_sorted-eq_cons x xs h.0)

    keep_if-insert_sorted :
        (test : A → Bool) (x : A) (ys : List A)
        → IsAscending ys
        → keep_if test (insert_sorted x ys)
          ≡ (if test x then insert_sorted x (keep_if test ys) else keep_if test ys)
    unfolding insert_sorted
    keep_if-insert_sorted test x [] h = refl
    keep_if-insert_sorted test x (y ∷ ys) h = elim (Bool-cases (before y x)) [
      | inl e ↦ ground (arith, keep_if-insert_sorted test x ys h.1)
      | inr e ↦
          let below = All-map (λ c k. trans x y c e k) ys h.0 in
          ground (
            arith,
            insert_sorted-eq_cons x (keep_if test ys)
                (All-keep_if (λ c. before c x ≡ false) test ys below),
          )
    ]

    -- Filtering commutes with sorting.
    pub keep_if-sort :
        (test : A → Bool) (xs : List A) → keep_if test (sort xs) ≡ sort (keep_if test xs)
    unfolding sort
    keep_if-sort test [] = refl
    keep_if-sort test (x ∷ xs) = elim (Bool-cases (test x)) [
      | inl e ↦
          rw (keep_if-insert_sorted test x (sort xs) (sort-IsAscending xs), e, keep_if-sort test xs)
            refl
      | inr e ↦
          rw (keep_if-insert_sorted test x (sort xs) (sort-IsAscending xs), e)
            (keep_if-sort test xs)
    ]
