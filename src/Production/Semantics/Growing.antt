-- ===== src/Production/Semantics/Growing.antt =====
-- Links stay in agreement when parents and children change without their ids, and when one is added.
use uv_studio.Base.{
  ◌≡◌, ◌≢◌, refl, sym, ◌∙◌, inl, inr, List, [], ◌∷◌, ◌++◌, map, Text, All, All-append_last, All-map,
  All-In, All-of_map, In, here, In-append_left, In-append_right,
}
use uv_studio.Base.Keyed.{In-map, text_cases}
use mathlib.Core.Path.{subst}
use uv_studio.Production.Semantics.Links.{Kind, Pass}
use uv_studio.Production.Semantics.Linking.{Child}
use uv_studio.Production.Semantics.Validity.{Linked}

module _ {A P : Type 0} (k : Kind A) (q : Pass P) where
  abbrev Up : List P → A → Type 0
  Up ps c = (p : P) × In p ps × (q.name p ≡ k.parent c) × In (k.id c) (q.listed p)

  -- Children that change, but not their ids or their parents
  pub Linked-children :
      (f : A → A) (ps : List P) (children : List A)
      → ((c : A) → k.id (f c) ≡ k.id c)
      → ((c : A) → k.parent (f c) ≡ k.parent c)
      → Linked k q ps children
      → Linked k q ps (map f children)
  Linked-children f ps children i j l = record {
    down =
        All-map {P = λ p. All (Child k children (q.name p)) (q.listed p)}
          (λ p cs.
            All-map {P = Child k children (q.name p)}
              (λ id (c, m, e, g). (f c, In-map f m, i c ∙ e, j c ∙ g)) (q.listed p) cs)
          ps l.down;
    up = (All-of_map (Up ps) f children).1 (
        All-map {P = Up ps}
          (λ c (p, m, e, n).
            (p, m, e ∙ sym (j c), subst (λ (x : Text). In x (q.listed p)) (sym (i c)) n))
          children l.up);
  }

  -- Parents that change, but not their ids or what they list
  pub Linked-parents :
      (g : P → P) (ps : List P) (children : List A)
      → ((p : P) → q.name (g p) ≡ q.name p)
      → ((p : P) → q.listed (g p) ≡ q.listed p)
      → Linked k q ps children
      → Linked k q (map g ps) children
  Linked-parents g ps children i j l = record {
    down = (All-of_map (λ p. All (Child k children (q.name p)) (q.listed p)) g ps).1 (
        All-map {P = λ p. All (Child k children (q.name p)) (q.listed p)}
          (λ p cs.
            subst (λ (x : Text). All (Child k children x) (q.listed (g p))) (sym (i p))
              (subst (λ (xs : List Text). All (Child k children (q.name p)) xs) (sym (j p)) cs))
          ps l.down);
    up =
        All-map {P = Up ps}
          (λ c (p, m, e, n).
            (g p, In-map g m, i p ∙ e, subst (λ (xs : List Text). In (k.id c) xs) (sym (j p)) n))
          children l.up;
  }

  -- A new parent that lists nothing
  pub Linked-add_parent :
      (ps : List P) (p : P) (children : List A)
      → q.listed p ≡ []
      → Linked k q ps children
      → Linked k q (ps ++ p ∷ []) children
  Linked-add_parent ps p children e l = record {
    down =
        (All-append_last (λ p. All (Child k children (q.name p)) (q.listed p)) ps p).1
          (l.down, subst (λ (xs : List Text). All (Child k children (q.name p)) xs) (sym e) tt);
    up = All-map {P = Up ps} (λ c (r, m, f, n). (r, In-append_left (p ∷ []) m, f, n)) children l.up;
  }

  -- A new child, which its parent lists from then on
  pub Linked-add_child :
      (add : P → P) (ps : List P) (children : List A) (c : A) (p : P)
      → ((p : P) → q.name (add p) ≡ q.name p)
      → ((p : P) → q.name p ≡ k.parent c → q.listed (add p) ≡ q.listed p ++ k.id c ∷ [])
      → ((p : P) → q.name p ≢ k.parent c → q.listed (add p) ≡ q.listed p)
      → In p ps
      → q.name p ≡ k.parent c
      → Linked k q ps children
      → Linked k q (map add ps) (children ++ c ∷ [])
  Linked-add_child add ps children c p same grown kept m e l = record {
    down =
        (All-of_map (λ p. All (Child k more (q.name p)) (q.listed p)) add ps).1
          (All-map {P = λ p. All (Child k children (q.name p)) (q.listed p)} down ps l.down);
    up = (All-append_last (Up (map add ps)) children c).1 (
      All-map {P = Up ps} (λ d (r, n, f, o). (add r, In-map add n, same r ∙ f, listed r (k.id d) o))
          children l.up,
      (
        add p,
        In-map add m,
        same p ∙ e,
        subst (λ (xs : List Text). In (k.id c) xs) (sym (grown p e))
            (In-append_right (q.listed p) here),
      ),
    );
  }
    where
      more : List A
      more = children ++ c ∷ []

      listed : (r : P) (id : Text) → In id (q.listed r) → In id (q.listed (add r))
      listed r id n = elim (text_cases (q.name r) (k.parent c)) [
        | inl f ↦
            subst (λ (xs : List Text). In id xs) (sym (grown r f)) (In-append_left (k.id c ∷ []) n)
        | inr f ↦ subst (λ (xs : List Text). In id xs) (sym (kept r f)) n
      ]

      down :
          (r : P)
          → All (Child k children (q.name r)) (q.listed r)
          → All (Child k more (q.name (add r))) (q.listed (add r))
      down r cs =
          let wide =
            All-map {P = Child k children (q.name r)} {Q = Child k more (q.name r)}
              (λ id (d, n, f, g). (d, In-append_left (c ∷ []) n, f, g)) (q.listed r) cs in
          subst (λ (x : Text). All (Child k more x) (q.listed (add r))) (sym (same r))
            (elim (text_cases (q.name r) (k.parent c)) [
              | inl f ↦
                  subst (λ (xs : List Text). All (Child k more (q.name r)) xs) (sym (grown r f))
                    ((All-append_last (Child k more (q.name r)) (q.listed r) (k.id c)).1
                      (wide, (c, In-append_right children here, refl, sym f)))
              | inr f ↦
                  subst (λ (xs : List Text). All (Child k more (q.name r)) xs) (sym (kept r f)) wide
            ])

  -- An id that no child has is listed nowhere.
  pub Linked-fresh :
      (ps : List P) (children : List A) (id : Text)
      → Linked k q ps children
      → All (λ c. k.id c ≢ id) children
      → All (λ p. All (λ x. x ≢ id) (q.listed p)) ps
  Linked-fresh ps children id l h =
      All-map {P = λ p. All (Child k children (q.name p)) (q.listed p)}
        (λ p cs.
          All-map {P = Child k children (q.name p)}
            (λ x (c, m, e, f) same. All-In (λ c. k.id c ≢ id) h m (e ∙ same)) (q.listed p) cs)
        ps l.down
