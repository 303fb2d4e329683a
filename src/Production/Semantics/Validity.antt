-- ===== src/Production/Semantics/Validity.antt =====
-- What a production document holds: different ids, and links that agree in both directions. The
-- loops over the links decide it.
use uv_studio.Base.{
  ◌≡◌, ◌≢◌, ◌↔◌, refl, sym, ◌∙◌, inl, inr, Bool, true, List, [], ◌∷◌, map, Text, contains, all,
  and-eq-true, All, AllPairs, All-In, All-map, In-All, In, ok,
}
use uv_studio.Base.Keyed.{In-same_key, In-map, In-of_map, contains-In, contains-of_In}
use mathlib.Core.Path.{subst, ap}
use uv_studio.Production.Semantics.Links.{Kind, Pass, link_each, same_set}
use uv_studio.Production.Semantics.Linking.{DifferentIds, Child}
use uv_studio.Production.Semantics.Passing.{Passes, link_each_inv, link_each_total}

all_iff : (test : Text → Bool) (xs : List Text) → (all test xs ≡ true) ↔ All (λ x. test x ≡ true) xs
all_iff test [] = (λ h. tt, λ h. refl)
all_iff test (x ∷ xs) = (
  λ h. let (a, b) = (and-eq-true (test x) (all test xs)).0 h in (a, (all_iff test xs).0 b),
  λ h. (and-eq-true (test x) (all test xs)).1 (h.0, (all_iff test xs).1 h.1),
)

same_set_iff : (xs ys : List Text) → (same_set xs ys ≡ true) ↔ ((x : Text) → In x xs ↔ In x ys)
unfolding same_set
same_set_iff xs ys = (
  λ h x.
      let (a, b) = (and-eq-true (all (λ x. contains x ys) xs) (all (λ y. contains y xs) ys)).0 h in
      (
        λ m. contains-In x ys (All-In (λ x. contains x ys ≡ true) ((all_iff _ xs).0 a) m),
        λ m. contains-In x xs (All-In (λ x. contains x xs ≡ true) ((all_iff _ ys).0 b) m),
      ),
  λ h. (and-eq-true (all (λ x. contains x ys) xs) (all (λ y. contains y xs) ys)).1 (
    (all_iff _ xs).1
        (In-All (λ x. contains x ys ≡ true) xs (λ x m. contains-of_In x ys ((h x).0 m))),
    (all_iff _ ys).1
        (In-All (λ x. contains x xs ≡ true) ys (λ x m. contains-of_In x xs ((h x).1 m))),
  ),
)

module _ {A P : Type 0} (k : Kind A) (q : Pass P) where
  -- Links in both directions: what a parent lists is a child of its own, and a child's parent is
  -- there and lists it.
  pub record Linked (ps : List P) (children : List A) : Type 0 where
    pub down : All (λ p. All (Child k children (q.name p)) (q.listed p)) ps
    pub up :
        All (λ c. (p : P) × In p ps × (q.name p ≡ k.parent c) × In (k.id c) (q.listed p)) children

  -- The other checks of the loop
  abbrev pub Checked : List P → Type 0
  Checked ps = All (λ p. (q.before p ≡ ok tt) × (q.after p ≡ ok tt)) ps

  -- A loop that passes, with the test that every child is linked, establishes the links.
  pub passed-Linked :
      (ps : List P) (children : List A) (out : List Text)
      → AllPairs (DifferentIds k) children
      → link_each k q children [] ps ≡ ok out
      → same_set out (map k.id children) ≡ true
      → Linked ps children × Checked ps
  passed-Linked ps children out u h s =
      let (passes, found) = link_each_inv k q children [] ps out h in
      (
        record {
          down = All-map {P = Passes k q children} (λ p x. x.1) ps passes;
          up = In-All _ children (λ c m.
              let linked =
                ((same_set_iff out (map k.id children)).0 s (k.id c)).1 (In-map k.id m) in
              elim ((found (k.id c)).0 linked) [
                | inl n ↦ elim n [ ]
                | inr (p, n, o) ↦
                    let (b, i, e, f) =
                      All-In (Child k children (q.name p)) (All-In (Passes k q children) passes n).1
                        o in
                    let same = In-same_key k.id children c b u m i (sym e) in
                    (p, n, sym (ap (λ x. k.parent x) same ∙ f), o)
              ]);
        },
        All-map {P = Passes k q children} (λ p x. (x.0, x.2)) ps passes,
      )

  -- The loop passes where the links agree, and links every child.
  pub Linked-passes :
      (ps : List P) (children : List A)
      → AllPairs (DifferentIds k) children
      → AllPairs (λ p r. q.name p ≢ q.name r) ps
      → All (λ p. AllPairs (λ s t. s ≢ t) (q.listed p)) ps
      → Linked ps children
      → Checked ps
      → (out : List Text) × (link_each k q children [] ps ≡ ok out)
        × (same_set out (map k.id children) ≡ true)
  Linked-passes ps children u names once l c =
      let passes = In-All (Passes k q children) ps (λ p m.
        let (b, a) = All-In (λ p. (q.before p ≡ ok tt) × (q.after p ≡ ok tt)) c m in
        (b, All-In (λ p. All (Child k children (q.name p)) (q.listed p)) l.down m, a)) in
      let (out, h) = link_each_total k q children [] ps u names once passes (λ d m n. elim n [ ]) in
      let (_, found) = link_each_inv k q children [] ps out h in
      (
        out,
        h,
        (same_set_iff out (map k.id children)).1 (λ x. (
          λ m. elim ((found x).0 m) [
            | inl n ↦ elim n [ ]
            | inr (p, n, o) ↦
                let (d, i, e, f) =
                  All-In (Child k children (q.name p)) (All-In (Passes k q children) passes n).1
                    o in
                subst (λ (y : Text). In y (map k.id children)) e (In-map k.id i)
          ],
          λ m.
              let (d, i, e) = In-of_map k.id children m in
              let (p, n, f, o) = All-In _ l.up i in
              (found x).1 (inr (p, n, subst (λ (y : Text). In y (q.listed p)) e o)),
        )),
      )
