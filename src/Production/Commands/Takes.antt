-- ===== src/Production/Commands/Takes.antt =====
-- `register_take` adds a take of a new id, which its shot lists from then on.
use uv_studio.Base.{
  find?, Option-cases, ◌≡◌, ◌≢◌, ◌↔◌, refl, sym, ◌∙◌, inl, inr, List, [], ◌∷◌, ◌++◌, map, some,
  Text, ◌==◌, All, All-map, All-In, All-of_map, In, ok, ok_inj, or_raise, or_raise-eq-ok, traverse,
  traverse-eq-map, Bool-cases, any, raise_if, raise_if-eq-ok, >>=-eq-ok, Outcome,
}
use uv_studio.Base.Keyed.{any-false_iff, find-found}
use mathlib.Core.Path.{subst, ap}
use uv_studio.Json.{Json}
use uv_studio.Projects.Files.{Disk}
use uv_studio.Projects.References.{Reference, Project}
use uv_studio.Production.Semantics.Values.{SemanticError, identifier}
use uv_studio.Production.Semantics.Checks.{IsIdentifier, identifier-eq_self}
use uv_studio.Production.Semantics.Entities.{Shot, Take, make_take, shot_arguments}
use uv_studio.Production.Semantics.Entries.{
  IsShot, make_take-IsTake, make_take-shot_id, make_shot-eq_self,
}
use uv_studio.Production.Semantics.Document.{Semantics, find_shot}
use uv_studio.Production.Semantics.Reading.{IsProduction}
use uv_studio.Production.Commands.Errors.{semantic, take_exists}
use uv_studio.Production.Commands.Updates.{
  rebuild, RegisterTake, register_take, list_take, registered, require_visual,
}
use uv_studio.Production.Commands.Registering.{Names, registered_iff, IsVisual, require_visual_iff}
use uv_studio.Production.Commands.Extending.{rebuild_iff, rebuild-eq-ok}
use uv_studio.Production.Commands.WithTake.{listing_take, with_take, with_take-IsProduction}

list_take-eq-ok :
    (a b : Text) (s : Shot)
    → IsShot (listing_take a b s)
    → list_take a b s ≡ ok (listing_take a b s)
unfolding list_take shot_arguments
list_take-eq-ok a b s v = elim (Bool-cases (s.shot_id == a)) [
  | inl e ↦
      let t = record s { take_ids = s.take_ids ++ b ∷ [] } in
      let valid : IsShot t = rw e at v in rw (e, make_shot-eq_self t valid, list_take) refl
  | inr e ↦ rw (e, list_take) refl
]

-- A shot that is found is one of the document's.
pub find_shot-In : (d : Semantics) (v : Json) (s : Shot) → find_shot d v ≡ ok s → In s d.shots
unfolding find_shot
find_shot-In d v s h =
    let (id, _, h1) = >>=-eq-ok (identifier v) _ h in
    elim (Option-cases (find? (λ s. s.shot_id == id) d.shots)) [
      | inl e ↦ cc
      | inr (t, e) ↦
          let same : t ≡ s = ok_inj {E = SemanticError} (rw e at h1) in
          (find-found (λ t. t.shot_id) d.shots id s (e ∙ ap some same)).0
    ]

-- `Take(...)` of the command
abbrev pub made_take : RegisterTake → Text → Outcome SemanticError Take
made_take c shot_id = make_take c.take_id (Json.str shot_id) c.reference_id c.label c.notes

-- The shots as the command changes them, and the production that it builds.
take_made :
    (c : RegisterTake) (d : Semantics) (shot : Shot) (t : Take)
    → IsProduction d
    → find_shot d c.shot_id ≡ ok shot
    → made_take c shot.shot_id ≡ ok t
    → All (λ u. u.take_id ≢ t.take_id) d.takes
    → (traverse (list_take shot.shot_id t.take_id) d.shots
        ≡ ok (map (listing_take shot.shot_id t.take_id) d.shots))
      × IsProduction (with_take d shot.shot_id t)
take_made c d shot t v f h n =
    let m = find_shot-In d c.shot_id shot f in
    let i = make_take-IsTake c.take_id (Json.str shot.shot_id) c.reference_id c.label c.notes t h in
    let e = ok_inj (
      sym (make_take-shot_id c.take_id (Json.str shot.shot_id) c.reference_id c.label c.notes t h)
      ∙ identifier-eq_self shot.shot_id (All-In IsShot v.shots m).id) in
    let w = with_take-IsProduction d shot t v i m e n in
    let add = listing_take shot.shot_id t.take_id in
    let valid = (All-of_map IsShot add d.shots).0 w.shots in
    (
      traverse-eq-map (list_take shot.shot_id t.take_id) add d.shots (
          All-map {P = λ s. IsShot (add s)} (λ s. list_take-eq-ok shot.shot_id t.take_id s) d.shots
            valid),
      w,
    )

named :
    (c : RegisterTake) (shot : Shot) (t : Take)
    → made_take c shot.shot_id ≡ ok t
    → IsIdentifier t.reference_id
named c shot t h =
    (make_take-IsTake c.take_id (Json.str shot.shot_id) c.reference_id c.label c.notes t
      h).reference

-- From a valid production, `register_take` computes a production (which it then commits) exactly if
-- the shot is there, a take can be constructed from the fields, its id is new, and its reference is
-- among the sources and artifacts of the project and is an image or a video, a regular file of the
-- project in one of the four media folders; the result is the production with that take at the end,
-- and in its shot's list. The identity of the project and the commit are not part of this.
pub register_take_iff :
    (disk : Disk) (p : Project) (c : RegisterTake) (d out : Semantics)
    → IsProduction d
    → (register_take disk p c d ≡ ok out) ↔ (
        (shot : Shot) × (t : Take) × (r : Reference) × (find_shot d c.shot_id ≡ ok shot)
        × (made_take c shot.shot_id ≡ ok t)
        × All (λ u. u.take_id ≢ t.take_id) d.takes
        × Names p t.reference_id r
        × IsVisual disk r
        × (out ≡ with_take d shot.shot_id t))
unfolding register_take
register_take_iff disk p c d out v = (
  λ h.
      let (shot, e0, h0) = >>=-eq-ok (or_raise (find_shot d c.shot_id) semantic) _ h in
      let found = or_raise-eq-ok (find_shot d c.shot_id) semantic e0 in
      let (t, e1, h1) = >>=-eq-ok (or_raise (made_take c shot.shot_id) semantic) _ h0 in
      let valid = or_raise-eq-ok (made_take c shot.shot_id) semantic e1 in
      let (_, e2, h2) =
        >>=-eq-ok (raise_if (any (λ u. u.take_id == t.take_id) d.takes) take_exists) _ h1 in
      let n =
        (any-false_iff (λ u. u.take_id) d.takes t.take_id).0 (raise_if-eq-ok _ take_exists e2) in
      let (r, e3, h3) = >>=-eq-ok (registered p t.reference_id) _ h2 in
      let (_, e4, h4) = >>=-eq-ok (require_visual disk r) _ h3 in
      let (_, e5, h5) = >>=-eq-ok (traverse (list_take shot.shot_id t.take_id) d.shots) _ h4 in
      let (mapped, _) = take_made c d shot t v found valid n in
      let built =
        subst (λ (ss : List Shot). rebuild d.scenes ss (d.takes ++ t ∷ []) ≡ ok out)
          (ok_inj (sym e5 ∙ mapped)) h5 in
      (
        shot,
        t,
        r,
        found,
        valid,
        n,
        (registered_iff p t.reference_id r (named c shot t valid)).0 e3,
        (require_visual_iff disk r).0 e4,
        (rebuild-eq-ok (with_take d shot.shot_id t) out built).0,
      ),
  λ (shot, t, r, found, valid, n, known, visual, same).
      let (mapped, w) = take_made c d shot t v found valid n in
      rw
        (
          found,
          valid,
          (any-false_iff (λ u. u.take_id) d.takes t.take_id).1 n,
          (registered_iff p t.reference_id r (named c shot t valid)).1 known,
          (require_visual_iff disk r).1 visual,
          mapped,
          same,
        )
        ((rebuild_iff (with_take d shot.shot_id t) w.scenes w.shots).1 w.consistent),
)

pub register_take-IsProduction :
    (disk : Disk) (p : Project) (c : RegisterTake) (d out : Semantics)
    → IsProduction d
    → register_take disk p c d ≡ ok out
    → IsProduction out
register_take-IsProduction disk p c d out v h =
    let (shot, t, _, found, valid, n, _, _, same) = (register_take_iff disk p c d out v).0 h in
    subst IsProduction (sym same) (take_made c d shot t v found valid n).1
