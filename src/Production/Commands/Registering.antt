-- ===== src/Production/Commands/Registering.antt =====
-- Which references a shot may name, and which a take may show.
use uv_studio.Base.{
  ◌≡◌, ◌↔◌, ◌⊎◌, refl, sym, ap, ◌∙◌, inl, inr, true, not, List, [], ◌∷◌, ◌++◌, Option, none, some,
  Option-cases, Text, codes, ◌==◌, contains, find?, All, In, Outcome, ok, raised, ok_inj, >>=-eq-ok,
  or_raise, or_raise-eq-ok, raise_if, raise_unless_inv,
}
use mathlib.Core.Path.{subst}
use uv_studio.Base.Keyed.{contains-In, contains-of_In}
use uv_studio.Json.{Json}
use uv_studio.Projects.Identifiers.{validate_identifier-eq_self}
use uv_studio.Projects.Paths.{parts}
use uv_studio.Projects.Files.{Disk, Entry, resolve_project_file, is_regular}
use uv_studio.Projects.References.{Reference, Project, find_reference}
use uv_studio.Production.Semantics.Checks.{IsIdentifier}
use uv_studio.Production.Commands.Errors.{
  ProductionError, unregistered, not_visual, no_root, root_not_accepted, unresolved_reference,
}
use uv_studio.Production.Commands.Updates.{
  registered, all_registered, media_roots, visual_kinds, first_part, require_visual,
}

-- The first reference with the id, among the sources and then the artifacts
abbrev pub Names : Project → Text → Reference → Type 0
Names p id r = find? (λ x. x.id == id) (p.sources ++ p.artifacts) ≡ some r

abbrev answer : Option Reference → Outcome ProductionError Reference
answer none = raised unregistered
answer (some r) = ok r

registered-eq-answer :
    (p : Project) (id : Text)
    → IsIdentifier id
    → registered p id ≡ answer (find? (λ x. x.id == id) (p.sources ++ p.artifacts))
unfolding registered find_reference
registered-eq-answer p id valid = rw (validate_identifier-eq_self id valid, registered) (go _)
  where
    go :
        (o : Option Reference)
        → elim o as (λ x. Outcome ProductionError Reference) [
          | none ↦ raised unregistered
          | some found ↦ ok found
        ]
          ≡ answer o
    go none = refl
    go (some r) = refl

some_inj : {a b : Reference} (p : ◌≡◌ {A = Option Reference} (some a) (some b)) → a ≡ b
some_inj p = cc

pub registered_iff :
    (p : Project) (id : Text) (r : Reference)
    → IsIdentifier id
    → (registered p id ≡ ok r) ↔ Names p id r
registered_iff p id r valid =
    elim (Option-cases (find? (λ x. x.id == id) (p.sources ++ p.artifacts))) [
      | inl e ↦
          let same : registered p id ≡ raised unregistered =
            registered-eq-answer p id valid ∙ ap answer e in
          (λ h. cc, λ h. cc)
      | inr (x, e) ↦
          let same : registered p id ≡ ok x = registered-eq-answer p id valid ∙ ap answer e in
          (
            λ h. e ∙ ap some (ok_inj {E = ProductionError} (sym same ∙ h)),
            λ h. same ∙ ap ok (some_inj (sym e ∙ h)),
          )
    ]

pub all_registered_iff :
    (p : Project) (ids : List Text)
    → All IsIdentifier ids
    → (all_registered p ids ≡ ok tt) ↔ All (λ id. (r : Reference) × Names p id r) ids
unfolding all_registered
all_registered_iff p [] valid = (λ h. tt, λ h. refl)
all_registered_iff p (id ∷ ids) valid = (
  λ h.
      let (r, e, rest) = >>=-eq-ok (registered p id) (λ _. all_registered p ids) h in
      ((r, (registered_iff p id r valid.0).0 e), (all_registered_iff p ids valid.1).0 rest),
  λ ((r, e), rest).
      rw ((registered_iff p id r valid.0).1 e) ((all_registered_iff p ids valid.1).1 rest),
)

-- An image or a video, a regular file of the project below one of the four media folders
pub record IsVisual (disk : Disk) (r : Reference) : Type 0 where
  pub kind : (r.kind ≡ codes "image") ⊎ (r.kind ≡ codes "video")
  pub root : Text
  pub rest : List Text
  pub path : parts r.path ≡ root ∷ rest
  pub accepted :
      In root (codes "artifacts" ∷ codes "assets" ∷ codes "exports" ∷ codes "sources" ∷ [])
  pub entry : Entry
  pub resolved :
      resolve_project_file disk true
        (codes "artifacts" ∷ codes "assets" ∷ codes "exports" ∷ codes "sources" ∷ [])
        (Json.str r.path)
      ≡ ok entry
  pub regular : entry ≡ Entry.regular

two : (k a b : Text) → In k (a ∷ b ∷ []) → (k ≡ a) ⊎ (k ≡ b)
two k a b In.here = inl refl
two k a b (In.there In.here) = inr refl
two k a b (In.there (In.there m)) = elim m [ ]

of_two : (k a b : Text) → (k ≡ a) ⊎ (k ≡ b) → In k (a ∷ b ∷ [])
of_two k a b (inl e) = subst (λ x. In x (a ∷ b ∷ [])) (sym e) In.here
of_two k a b (inr e) = subst (λ x. In x (a ∷ b ∷ [])) (sym e) (In.there In.here)

is_regular-inv : (e : Entry) → is_regular e ≡ true → e ≡ Entry.regular
unfolding is_regular
is_regular-inv Entry.regular h = refl
is_regular-inv Entry.refused h = cc
is_regular-inv Entry.absent h = cc
is_regular-inv Entry.irregular h = cc

cons_inj : {q r : Text} {qs rs : List Text} → q ∷ qs ≡ r ∷ rs → q ≡ r
cons_inj h = cc

List-cases : (ps : List Text) → (ps ≡ []) ⊎ ((q : Text) × (qs : List Text) × (ps ≡ q ∷ qs))
List-cases [] = inl refl
List-cases (q ∷ qs) = inr (q, qs, refl)

first_part_iff :
    (path root : Text)
    → (first_part path ≡ ok root) ↔ ((rest : List Text) × (parts path ≡ root ∷ rest))
unfolding first_part
first_part_iff path root = elim (List-cases (parts path)) [
  | inl e ↦
      let same : first_part path ≡ raised no_root = rw (e, first_part) refl in
      (λ h. cc, λ (rest, h). cc)
  | inr (q, qs, e) ↦
      let same : first_part path ≡ ok q = rw (e, first_part) refl in
      (
        λ h. (qs, e ∙ ap (λ x. x ∷ qs) (ok_inj {E = ProductionError} (sym same ∙ h))),
        λ (rest, h). same ∙ ap ok (cons_inj (sym e ∙ h)),
      )
]

pub require_visual_iff :
    (disk : Disk) (r : Reference) → (require_visual disk r ≡ ok tt) ↔ IsVisual disk r
unfolding require_visual
require_visual_iff disk r = (
  λ h.
      let (_, e, h1) = >>=-eq-ok (raise_if (not (contains r.kind visual_kinds)) not_visual) _ h in
      let (root, f, h2) = >>=-eq-ok (first_part r.path) _ h1 in
      let (_, g, h3) =
        >>=-eq-ok (raise_if (not (contains root media_roots)) root_not_accepted) _ h2 in
      let found = resolve_project_file disk true media_roots (Json.str r.path) in
      let (entry, k, h4) = >>=-eq-ok (or_raise found unresolved_reference) _ h3 in
      let (rest, path) = (first_part_iff r.path root).0 f in
      record {
        kind = two r.kind _ _ (contains-In r.kind visual_kinds (raise_unless_inv _ _ e));
        root = root;
        rest = rest;
        path = path;
        accepted = contains-In root media_roots (raise_unless_inv _ _ g);
        entry = entry;
        resolved = or_raise-eq-ok found unresolved_reference k;
        regular = is_regular-inv entry (raise_unless_inv _ _ h4);
      },
  λ v.
      rw
        (
          contains-of_In r.kind visual_kinds (of_two r.kind _ _ v.kind),
          (first_part_iff r.path v.root).1 (v.rest, v.path),
          contains-of_In v.root media_roots v.accepted,
          v.resolved,
          v.regular,
        )
        (unfold is_regular in refl),
)
