-- ===== src/Production/Commands/Extending.antt =====
-- What the commands that extend a production share.
use uv_studio.Base.{
  ◌≡◌, ◌≢◌, ◌↔◌, refl, List, [], ◌∷◌, ◌++◌, Text, All, All-append_last, AllPairs-append_last, ok,
  or_raise-eq-ok,
}
use uv_studio.Json.{num, equals_one}
use uv_studio.Production.Semantics.Checks.{IsIdentifier, IsIds}
use uv_studio.Production.Semantics.Entities.{Scene, Shot, Take}
use uv_studio.Production.Semantics.Entries.{IsScene, IsShot}
use uv_studio.Production.Semantics.Document.{Semantics, take_kind, shot_pass}
use uv_studio.Production.Semantics.Validity.{Linked}
use uv_studio.Production.Semantics.Construction.{
  IsSemantics, make_semantics_iff, make_semantics_inv,
}
use uv_studio.Production.Semantics.Reading.{IsProduction-ListsOnce}
use uv_studio.Production.Commands.Errors.{semantic}
use uv_studio.Production.Commands.Updates.{rebuild}

-- A document is built from valid scenes, shots and takes exactly if they are consistent.
pub rebuild_iff :
    (d : Semantics)
    → All IsScene d.scenes
    → All IsShot d.shots
    → (rebuild d.scenes d.shots d.takes ≡ ok d) ↔ IsSemantics d
rebuild_iff d a b =
    let once = IsProduction-ListsOnce a b in
    (
      λ h. ((make_semantics_iff (num 1) d once).0 (or_raise-eq-ok _ semantic h)).1,
      λ i. rw ((make_semantics_iff (num 1) d once).1 (unfold equals_one in refl, i)) refl,
    )

-- What is built is what was given.
pub rebuild-eq-ok :
    (d out : Semantics) → rebuild d.scenes d.shots d.takes ≡ ok out → (out ≡ d) × IsSemantics d
rebuild-eq-ok d out h =
    let (_, i, same) = make_semantics_inv (num 1) d out (or_raise-eq-ok _ semantic h) in (same, i)

-- Links are the same whichever scenes the shots are checked against.
pub relink :
    (ss ts : List Scene) {hs : List Shot} {takes : List Take}
    → Linked take_kind (shot_pass ss) hs takes
    → Linked take_kind (shot_pass ts) hs takes
unfolding shot_pass
relink ss ts l = record { down = l.down; up = l.up }

-- Ids with a new one stay valid.
pub IsIds-append :
    (ids : List Text) (id : Text)
    → IsIds ids
    → IsIdentifier id
    → All (λ x. x ≢ id) ids
    → IsIds (ids ++ id ∷ [])
IsIds-append ids id v i n = record {
  each = (All-append_last IsIdentifier ids id).1 (v.each, i);
  differ = (AllPairs-append_last (λ s t. s ≢ t) ids id).1 (v.differ, n);
}
