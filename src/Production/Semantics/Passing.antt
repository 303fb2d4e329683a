-- ===== src/Production/Semantics/Passing.antt =====
-- What the loops over the links establish: each parent lists children of its own, and the ids that
-- end up linked are those that are listed.
use uv_studio.Base.{
  ◌≡◌, ◌≢◌, ◌↔◌, ◌⊎◌, refl, sym, ◌∙◌, inl, inr, List, [], ◌∷◌, Text, All, AllPairs, All-In, All-map,
  In-All, In, here, there, ok, ok_inj, >>=-eq-ok,
}
use uv_studio.Base.Keyed.{In-same_key}
use mathlib.Core.Path.{subst, ap}
use uv_studio.Production.Semantics.Links.{Kind, Pass, link, link_each}
use uv_studio.Production.Semantics.Linking.{DifferentIds, Child, link_inv, link_total}

module _ {P : Type 0} (q : Pass P) where
  abbrev pub Listed : Text → List P → Type 0
  Listed x ps = (p : P) × In p ps × In x (q.listed p)

  listed_later :
      {x : Text} {linked linked' : List Text} {p : P} {ps : List P}
      → (In x linked ⊎ In x (q.listed p) → In x linked')
      → In x linked ⊎ Listed x (p ∷ ps)
      → In x linked' ⊎ Listed x ps
  listed_later f (inl m) = inl (f (inl m))
  listed_later f (inr (p, here, n)) = inl (f (inr n))
  listed_later f (inr (p, there m, n)) = inr (p, m, n)

  listed_before :
      {x : Text} {linked linked' : List Text} {p : P} {ps : List P}
      → (In x linked' → In x linked ⊎ In x (q.listed p))
      → In x linked' ⊎ Listed x ps
      → In x linked ⊎ Listed x (p ∷ ps)
  listed_before {p = p} f (inl m) = elim (f m) [ inl n ↦ inl n | inr n ↦ inr (p, here, n) ]
  listed_before f (inr (r, m, n)) = inr (r, there m, n)

module _ {A P : Type 0} (k : Kind A) (q : Pass P) (children : List A) where
  -- A parent's own checks pass, and it lists children of its own.
  abbrev pub Passes : P → Type 0
  Passes p =
      (q.before p ≡ ok tt) × All (Child k children (q.name p)) (q.listed p) × (q.after p ≡ ok tt)

  -- The loop passes only where each parent does, and links all that is listed.
  pub link_each_inv :
      (linked : List Text) (ps : List P) (out : List Text)
      → link_each k q children linked ps ≡ ok out
      → All Passes ps × ((x : Text) → In x out ↔ (In x linked ⊎ Listed q x ps))
  unfolding link_each
  link_each_inv linked [] out h =
      subst (λ (o : List Text). Unit × ((x : Text) → In x o ↔ (In x linked ⊎ Listed q x [])))
        (ok_inj h) (tt, λ x. (inl, λ s. elim s [ inl m ↦ m | inr (_, n, _) ↦ elim n [ ] ]))
  link_each_inv linked (p ∷ ps) out h =
      let (_, hb, h1) = >>=-eq-ok (q.before p) _ h in
      let (linked', hl, h2) = >>=-eq-ok (link k children (q.name p) linked (q.listed p)) _ h1 in
      let (_, ha, h3) = >>=-eq-ok (q.after p) _ h2 in
      let (cs, same) = link_inv k children (q.name p) linked (q.listed p) linked' hl in
      let (rest, found) = link_each_inv linked' ps out h3 in
      (
        ((hb, cs, ha), rest),
        λ x. (
          λ m. listed_before q (same x).0 ((found x).0 m),
          λ s. (found x).1 (listed_later q (same x).1 s),
        ),
      )

  -- No parent to come is the parent of a child that is linked.
  abbrev pub Done : List Text → List P → Type 0
  Done linked ps =
      (c : A) → In c children → In (k.id c) linked → All (λ p. k.parent c ≢ q.name p) ps

  -- What a parent lists is not linked before its turn.
  fresh :
      (linked : List Text) (p : P) (ps : List P)
      → Done linked (p ∷ ps)
      → All (Child k children (q.name p)) (q.listed p)
      → All (λ id. All (λ l. id ≢ l) linked) (q.listed p)
  fresh linked p ps d cs =
      In-All (λ id. All (λ l. id ≢ l) linked) (q.listed p)
        (λ id m.
          let (c, n, e, f) = All-In (Child k children (q.name p)) cs m in
          In-All (λ l. id ≢ l) linked
            (λ l o same. (d c n (subst (λ (x : Text). In x linked) (sym (e ∙ same)) o)).0 f))

  Done-after :
      (linked linked' : List Text) (p : P) (ps : List P)
      → AllPairs (DifferentIds k) children
      → All (λ r. q.name p ≢ q.name r) ps
      → Done linked (p ∷ ps)
      → All (Child k children (q.name p)) (q.listed p)
      → ((x : Text) → In x linked' → In x linked ⊎ In x (q.listed p))
      → Done linked' ps
  Done-after linked linked' p ps u names d cs same c m l = elim (same (k.id c) l) [
    | inl n ↦ (d c m n).1
    | inr n ↦
        let (b, o, e, f) = All-In (Child k children (q.name p)) cs n in
        let parent = ap (λ x. k.parent x) (In-same_key k.id children c b u m o (sym e)) ∙ f in
        All-map {Q = λ r. k.parent c ≢ q.name r} (λ r other g. other (sym parent ∙ g)) ps names
  ]

  -- The loop passes over parents of different names that list children of their own, each once.
  pub link_each_total :
      (linked : List Text) (ps : List P)
      → AllPairs (DifferentIds k) children
      → AllPairs (λ p r. q.name p ≢ q.name r) ps
      → All (λ p. AllPairs (λ s t. s ≢ t) (q.listed p)) ps
      → All Passes ps
      → Done linked ps
      → (out : List Text) × (link_each k q children linked ps ≡ ok out)
  unfolding link_each
  link_each_total linked [] u names once h d = (linked, refl)
  link_each_total linked (p ∷ ps) u names once h d =
      let (hb, cs, ha) = h.0 in
      let (linked', hl) =
        link_total k children (q.name p) linked (q.listed p) u cs once.0 (fresh linked p ps d cs) in
      let (_, same) = link_inv k children (q.name p) linked (q.listed p) linked' hl in
      let after = Done-after linked linked' p ps u names.0 d cs (λ x. (same x).0) in
      let (out, ho) = link_each_total linked' ps u names.1 once.1 h.1 after in
      (out, rw (hb, hl, ha) ho)
