-- ===== src/Production/Commands/Once.antt =====
-- A shot accepts one take: `accept_take` refuses every other until the first is undone.
use uv_studio.Base.{
  ◌≡◌, refl, sym, ◌∙◌, inl, inr, true, List, map, find?, Option, none, some, Outcome, Option-cases,
  Text, ◌==◌, text_eq_refl, ok, raised, ok_inj, ◌>>=◌, >>=-eq-ok, Bool-cases,
}
use uv_studio.Base.Keyed.{find-map}
use mathlib.Core.Path.{ap}
use uv_studio.Json.{Json}
use uv_studio.Projects.Files.{Disk, JsonFile}
use uv_studio.Projects.References.{Project}
use uv_studio.Production.Semantics.Values.{SemanticError, shot_not_found, identifier}
use uv_studio.Production.Semantics.Entities.{Shot, Take}
use uv_studio.Production.Semantics.Document.{Semantics, find_shot, find_take}
use uv_studio.Production.Semantics.Reading.{IsProduction}
use uv_studio.Production.Commands.Errors.{already_accepted}
use uv_studio.Production.Commands.Acceptance.{Acceptance, has_accepted, choose, accept_take}
use uv_studio.Production.Commands.Binding.{AcceptTake}
use uv_studio.Production.Commands.Marking.{accepting}
use uv_studio.Production.Commands.Accepting.{accept_take-Accepted}

accepting_id : (a b c : Text) (s : Shot) → (accepting a b c s).shot_id ≡ s.shot_id
accepting_id a b c s = elim (Bool-cases (s.shot_id == a)) [ inl e ↦ rw e refl | inr e ↦ rw e refl ]

abbrev shot_or_none : Option Shot → Outcome SemanticError Shot
shot_or_none o = elim o [ none ↦ raised shot_not_found | some s ↦ ok s ]

find_shot-map :
    (f : Shot → Shot) (d : Semantics) (v : Json) (s : Shot)
    → ((s : Shot) → (f s).shot_id ≡ s.shot_id)
    → find_shot d v ≡ ok s
    → find_shot (record d { shots = map f d.shots }) v ≡ ok (f s)
unfolding find_shot
find_shot-map f d v s i h =
    let (id, e, h1) = >>=-eq-ok (identifier v) _ h in
    elim (Option-cases (find? (λ s. s.shot_id == id) d.shots)) [
      | inl g ↦ cc
      | inr (t, g) ↦
          let same : t ≡ s = ok_inj {E = SemanticError} (rw g at h1) in
          let again = find-map (λ s. s.shot_id) f d.shots id s i (g ∙ ap some same) in
          ap (λ m. m >>= λ id. shot_or_none (find? (λ s. s.shot_id == id) (map f d.shots))) e
          ∙ ap shot_or_none again
    ]

find_take-same :
    (d : Semantics) (shots : List Shot) (v : Json)
    → find_take (record d { shots = shots }) v ≡ find_take d v
unfolding find_take
find_take-same d shots v = refl

refused :
    (disk : Disk) (p : Project) (file : JsonFile) (new_hex : Text) (c : AcceptTake) (d : Semantics)
    (t : Take) (s : Shot)
    → find_take d c.take_id ≡ ok t
    → find_shot d (Json.str t.shot_id) ≡ ok s
    → has_accepted s ≡ true
    → accept_take disk p file new_hex c d ≡ raised already_accepted
unfolding accept_take choose
refused disk p file new_hex c d t s e f g = rw (e, f, g) refl

-- After a take of a shot is accepted, accepting it or any other take of that shot is refused,
-- whatever the arguments, the project, its files and its timeline are then.
pub accept_take_once :
    (disk disk' : Disk) (p p' : Project) (file file' : JsonFile) (hex hex' : Text)
    (c c' : AcceptTake) (d : Semantics) (out : Acceptance) (t t' : Take)
    → IsProduction d
    → accept_take disk p file hex c d ≡ ok out
    → find_take d c.take_id ≡ ok t
    → find_take d c'.take_id ≡ ok t'
    → t'.shot_id ≡ t.shot_id
    → accept_take disk' p' file' hex' c' out.production ≡ raised already_accepted
accept_take_once disk disk' p p' file file' hex hex' c c' d out t t' v h e e' same =
    let a = accept_take-Accepted disk p file hex c d out v h in
    let mark = accepting a.shot.shot_id a.take.take_id a.clip_id in
    let chosen : a.take ≡ t = ok_inj (sym a.take_found ∙ e) in
    let found =
      find_shot-map mark d (Json.str t'.shot_id) a.shot
        (accepting_id a.shot.shot_id a.take.take_id a.clip_id)
        (rw (same, ap (λ (t : Take). t.shot_id) (sym chosen)) a.shot_found) in
    let marked : has_accepted (mark a.shot) ≡ true = rw (text_eq_refl a.shot.shot_id) refl in
    rw a.production (
      refused disk' p' file' hex' c' (record d { shots = map mark d.shots }) t' (mark a.shot)
        (find_take-same d (map mark d.shots) c'.take_id ∙ e') found marked)
