-- ===== src/Production/Commands/Running.antt =====
-- What a command of the service comes to: all of its documents are committed, or nothing changes.
use uv_studio.Base.{◌≡◌, ◌⊎◌, ok, raised, ok_inj, >>=-eq-ok}
use mathlib.Core.Path.{subst}
use uv_studio.Json.{Json}
use uv_studio.Projects.Files.{JsonFile}
use uv_studio.Projects.References.{Project}
use uv_studio.Projects.Transactions.Model.{World}
use uv_studio.Projects.Transactions.Journal.{recover}
use uv_studio.Projects.Transactions.Commit.{Services, Attempt}
use uv_studio.Projects.Transactions.Commits.{Unchanged}
use uv_studio.Projects.Transactions.Saving.{IsCommitted}
use uv_studio.Production.Semantics.Document.{Semantics, empty_semantics}
use uv_studio.Production.Semantics.Reading.{IsProduction}
use uv_studio.Production.Commands.Errors.{ProductionError}
use uv_studio.Production.Commands.Updates.{create_scene, create_shot, register_take}
use uv_studio.Production.Commands.Scenes.{create_scene-IsProduction}
use uv_studio.Production.Commands.Shots.{create_shot-IsProduction}
use uv_studio.Production.Commands.Takes.{register_take-IsProduction}
use uv_studio.Production.Commands.Acceptance.{accept_take}
use uv_studio.Production.Commands.Accepting.{accept_take-Accepted}
use uv_studio.Production.Commands.Loading.{empty_semantics-IsProduction}
use uv_studio.Production.Commands.Service.{
  Call, creates, shoots, registers, accepts, Surroundings, timeline_path, file_at, Computed,
  just_production, three_documents, compute, call_name, Ran, prepare,
}

-- Every command computes a valid production from a valid one.
pub compute-IsProduction :
    (x : Surroundings) (p : Project) (file : JsonFile) (c : Call) (d : Semantics) (out : Computed)
    → IsProduction d
    → compute x p file c d ≡ ok out
    → IsProduction out.0
unfolding compute
compute-IsProduction x p file (creates c) d out v h =
    let (e, k, l) = >>=-eq-ok (create_scene c d) (λ e. ok (just_production e)) h in
    subst (λ (o : Computed). IsProduction o.0) (ok_inj l) (create_scene-IsProduction c d e v k)
compute-IsProduction x p file (shoots c) d out v h =
    let (e, k, l) = >>=-eq-ok (create_shot p c d) (λ e. ok (just_production e)) h in
    subst (λ (o : Computed). IsProduction o.0) (ok_inj l) (create_shot-IsProduction p c d e v k)
compute-IsProduction x p file (registers c) d out v h =
    let (e, k, l) = >>=-eq-ok (register_take x.disk p c d) (λ e. ok (just_production e)) h in
    subst (λ (o : Computed). IsProduction o.0) (ok_inj l)
      (register_take-IsProduction x.disk p c d e v k)
compute-IsProduction x p file (accepts hex c) d out v h =
    let (a, k, l) =
      >>=-eq-ok (accept_take x.disk p file hex c d) (λ a. ok (three_documents x a)) h in
    subst (λ (o : Computed). IsProduction o.0) (ok_inj l)
      (accept_take-Accepted x.disk p file hex c d a v k).valid

-- The productions that commands make of the empty one, whatever the project, its files and its
-- timeline are at each.
pub data Reached : Semantics → Type 0 where
  start : Reached empty_semantics
  step :
      {d : Semantics} {out : Computed} (x : Surroundings) (p : Project) (file : JsonFile) (c : Call)
      → Reached d
      → compute x p file c d ≡ ok out
      → Reached out.0

-- Every production that any sequence of commands makes of the empty one is valid: its entries are,
-- ids are different, the links between scenes, shots and takes agree in both directions, and what a
-- shot accepts is one of its takes.
pub Reached-IsProduction : {d : Semantics} → Reached d → IsProduction d
Reached-IsProduction start = empty_semantics-IsProduction
Reached-IsProduction (step {d} {out} x p file c r h) =
    compute-IsProduction x p file c d out (Reached-IsProduction r) h

-- The command computes a production from the loaded one, and its documents: all of them are written
-- and the production is returned; or it raises, and what was on disk is still there.
abbrev pub RunOutcome : Services → Attempt → Surroundings → Call → World → Ran → Type 0
RunOutcome s a x c w (result, u) =
    ((p : Project) × (d : Semantics) × (out : Computed) × (prepare x w ≡ ok (p, d))
      × (compute x p (file_at x w timeline_path) c d ≡ ok out)
      × (result ≡ ok out.0)
      × IsProduction out.0
      × IsCommitted s a (call_name c) out.1 w u)
    ⊎ ((e : ProductionError) × (result ≡ raised e) × Unchanged w (recover u))
