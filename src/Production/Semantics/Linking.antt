-- ===== src/Production/Semantics/Linking.antt =====
-- What the inner loop over the links establishes: each listed id is a child of the parent that lists
-- it, and is linked.
use uv_studio.Base.{
  ◌≡◌, ◌≢◌, ◌↔◌, ◌⊎◌, refl, sym, ◌∙◌, inl, inr, not, List, [], ◌∷◌, some, Text, ◌==◌, text_eq_iff,
  contains, contains-false_iff, find?, All, AllPairs, In, here, there, ok, ok_inj, >>=-eq-ok,
  raise_if, raise_if-eq-ok, Option-cases, arith,
}
use uv_studio.Base.Keyed.{find_unique, find-found, In-same_key}
use mathlib.Core.Path.{subst, ap}
use uv_studio.Production.Semantics.Links.{Kind, find_child, link}

-- An item is moved from those to come to those that are done.
move_to_done :
    {x y : Text} {done to_come : List Text}
    → In x done ⊎ In x (y ∷ to_come)
    → In x (y ∷ done) ⊎ In x to_come
move_to_done (inl m) = inl (there m)
move_to_done (inr here) = inl here
move_to_done (inr (there m)) = inr m

move_back :
    {x y : Text} {done to_come : List Text}
    → In x (y ∷ done) ⊎ In x to_come
    → In x done ⊎ In x (y ∷ to_come)
move_back (inl here) = inr here
move_back (inl (there m)) = inl m
move_back (inr m) = inr (there m)

module _ {A : Type 0} (k : Kind A) where
  abbrev pub DifferentIds : A → A → Type 0
  DifferentIds a b = k.id a ≢ k.id b

  -- A child of this parent has this id.
  abbrev pub Child : List A → Text → Text → Type 0
  Child children parent id = (c : A) × In c children × (k.id c ≡ id) × (k.parent c ≡ parent)

  find_child-found :
      (children : List A) (id : Text) (c : A)
      → find_child k children id ≡ ok c
      → In c children × (k.id c ≡ id)
  unfolding find_child
  find_child-found children id c h = elim (Option-cases (find? (λ c. k.id c == id) children)) [
    | inl e ↦ cc
    | inr (d, e) ↦ find-found k.id children id c (e ∙ ap some (ok_inj (rw (e, find_child) at h)))
  ]

  find_child_unique :
      (children : List A) (c : A)
      → AllPairs DifferentIds children
      → In c children
      → find_child k children (k.id c) ≡ ok c
  unfolding find_child
  find_child_unique children c d m = rw (find_unique k.id children c d m, find_child) refl

  Child-unique :
      (children : List A) (c : A) {parent : Text}
      → AllPairs DifferentIds children
      → In c children
      → Child children parent (k.id c)
      → k.parent c ≡ parent
  Child-unique children c d m (b, n, e, f) =
      ap (λ x. k.parent x) (In-same_key k.id children c b d m n (sym e)) ∙ f

  -- One step of the inner loop
  link_step :
      (children : List A) (parent : Text) (linked : List Text) (id : Text) (ids out : List Text)
      → link k children parent linked (id ∷ ids) ≡ ok out
      → Child children parent id × (link k children parent (id ∷ linked) ids ≡ ok out)
  unfolding link
  link_step children parent linked id ids out h =
      let (c, hc, h1) = >>=-eq-ok (find_child k children id) _ h in
      let (_, hp, h2) = >>=-eq-ok (raise_if (not (k.parent c == parent)) k.foreign) _ h1 in
      let (_, hl, h3) = >>=-eq-ok (raise_if (contains id linked) k.twice) _ h2 in
      let (m, n) = find_child-found children id c hc in
      let same = raise_if-eq-ok (not (k.parent c == parent)) k.foreign hp in
      ((c, m, n, (text_eq_iff (k.parent c) parent).0 (ground arith)), h3)

  -- The inner loop passes only over the parent's children, and links them.
  pub link_inv :
      (children : List A) (parent : Text) (linked ids out : List Text)
      → link k children parent linked ids ≡ ok out
      → All (Child children parent) ids × ((x : Text) → In x out ↔ (In x linked ⊎ In x ids))
  unfolding link
  link_inv children parent linked [] out h =
      subst (λ (o : List Text). Unit × ((x : Text) → In x o ↔ (In x linked ⊎ In x []))) (ok_inj h)
        (tt, λ x. (inl, λ s. elim s [ inl m ↦ m | inr n ↦ elim n [ ] ]))
  link_inv children parent linked (id ∷ ids) out h =
      let (c, h1) = link_step children parent linked id ids out h in
      let (cs, same) = link_inv children parent (id ∷ linked) ids out h1 in
      ((c, cs), λ x. (λ m. move_back ((same x).0 m), λ s. (same x).1 (move_to_done s)))

  -- It passes over children of the parent that are not linked yet, each listed once.
  pub link_total :
      (children : List A) (parent : Text) (linked ids : List Text)
      → AllPairs DifferentIds children
      → All (Child children parent) ids
      → AllPairs (λ s t. s ≢ t) ids
      → All (λ id. All (λ l. id ≢ l) linked) ids
      → (out : List Text) × (link k children parent linked ids ≡ ok out)
  unfolding link
  link_total children parent linked [] d c p n = (linked, refl)
  link_total children parent linked (id ∷ ids) d c p n =
      let (b, m, e, f) = c.0 in
      let (out, h) =
        link_total children parent (id ∷ linked) ids d c.1 p.1 (add_each ids p.0 n.1) in
      (
        out,
        rw
            (
              subst (λ (x : Text). find_child k children x ≡ ok b) e
                  (find_child_unique children b d m),
              (text_eq_iff (k.parent b) parent).1 f,
              (contains-false_iff id linked).1 n.0,
            )
            h,
      )
    where
      add_each :
          (xs : List Text)
          → All (λ x. id ≢ x) xs
          → All (λ x. All (λ l. x ≢ l) linked) xs
          → All (λ x. All (λ l. x ≢ l) (id ∷ linked)) xs
      add_each [] u v = tt
      add_each (x ∷ xs) u v = ((λ e. u.0 (sym e), v.0), add_each xs u.1 v.1)
