-- ===== src/Production/Commands/Service.antt =====
-- `ProductionSemanticService`: a command loads the production, computes the new documents, and
-- commits them. The project lock that each of its methods holds makes it the only one to run.
use uv_studio.Base.{
  [], ◌∷◌, Option, none, some, Text, codes, List, Outcome, ok, raised, ◌>>=◌, or_raise,
}
use uv_studio.Json.{Json, Fields}
use uv_studio.Projects.Errors.{ValidationError}
use uv_studio.Projects.Files.{Disk, JsonFile}
use uv_studio.Projects.Identity.{Claims, require_modern_studio_identity}
use uv_studio.Projects.References.{Project}
use uv_studio.Projects.Timeline.Document.{timeline_to_dict}
use uv_studio.Projects.Transactions.Model.{Bytes, World, TransactionError}
use uv_studio.Projects.Transactions.Commit.{Services, Attempt, commit}
use uv_studio.Production.State.{StateError, load_document}
use uv_studio.Production.Semantics.Document.{
  Semantics, empty_semantics, semantics_to_dict, semantics_from_dict,
}
use uv_studio.Production.Commands.Errors.{unloadable, not_modern, unreadable, semantic, uncommitted}
use uv_studio.Production.Commands.Updates.{
  Result, CreateScene, CreateShot, RegisterTake, create_scene, create_shot, register_take,
}
use uv_studio.Production.Commands.Acceptance.{Acceptance, accept_take}
use uv_studio.Production.Commands.Binding.{AcceptTake}

-- A call of one of the commands; the text is the hex of the id that uuid4 gives.
pub data Call : Type 0 where
  creates : CreateScene → Call
  shoots : CreateShot → Call
  registers : RegisterTake → Call
  accepts : Text → AcceptTake → Call

-- What a command reads besides the production: the media on disk, the project as it is loaded, what
-- it claims as its identity, the printing of a project whose time of update is set, and `json.loads` of the bytes of a file (none where it raises).
pub record Surroundings : Type 0 where
  pub disk : Disk
  pub project : Outcome ValidationError Project
  pub claims : Claims
  pub print_project : Project → Fields
  pub loads : Bytes → Option Json

-- `PRODUCTION_SEMANTICS_PATH`, `PROJECT_FILENAME` and `MAIN_TIMELINE_PATH`
abbrev pub semantics_path : Text
semantics_path = codes "production/semantics.json"

abbrev pub project_path : Text
project_path = codes "project.json"

abbrev pub timeline_path : Text
timeline_path = codes "timeline/main.json"

-- A document of the project, as a file
unfoldable pub file_at : Surroundings → World → Text → JsonFile
file_at x w path = elim (w.documents path) [
  | none ↦ JsonFile.no_file
  | some bytes ↦ elim (x.loads bytes) [
    | none ↦ JsonFile.malformed
    | some data_ ↦ JsonFile.document data_
  ]
]

-- `_load_semantics`
abbrev pub or_empty : Outcome StateError Fields → Result Semantics
or_empty (ok d) = or_raise (semantics_from_dict (Json.obj d)) semantic
or_empty (raised StateError.not_found) = ok empty_semantics
or_empty (raised e) = raised (unreadable e)

unfoldable pub load_semantics : JsonFile → Result Semantics
load_semantics file = or_empty (load_document file)

-- What a command computes: the new production, and the documents that are committed.
abbrev pub Computed : Type 0
Computed = Semantics × List (Json × Fields)

abbrev pub just_production : Semantics → Computed
just_production d = (d, (Json.str semantics_path, semantics_to_dict d) ∷ [])

abbrev pub three_documents : Surroundings → Acceptance → Computed
three_documents x a = (
  a.production,
  (Json.str project_path, x.print_project a.project)
      ∷ (Json.str semantics_path, semantics_to_dict a.production)
      ∷ (Json.str timeline_path, timeline_to_dict a.timeline)
      ∷ [],
)

unfoldable pub compute : Surroundings → Project → JsonFile → Call → Semantics → Result Computed
compute x p file (creates c) d = create_scene c d >>= λ e. ok (just_production e)
compute x p file (shoots c) d = create_shot p c d >>= λ e. ok (just_production e)
compute x p file (registers c) d = register_take x.disk p c d >>= λ e. ok (just_production e)
compute x p file (accepts hex c) d =
    accept_take x.disk p file hex c d >>= λ a. ok (three_documents x a)

-- The name under which the command is committed
unfoldable pub call_name : Call → Text
call_name (creates _) = codes "production.create_scene"
call_name (shoots _) = codes "production.create_shot"
call_name (registers _) = codes "production.register_take"
call_name (accepts _ _) = codes "production.accept_take"

abbrev pub Ran : Type 0
Ran = Result Semantics × World

-- What is returned once the documents are committed
abbrev pub returning : Semantics → Outcome TransactionError (Unit {0}) × World → Ran
returning d (ok _, w) = (ok d, w)
returning d (raised e, w) = (raised (uncommitted e), w)

abbrev pub commit_computed : Services → Attempt → Text → World → Result Computed → Ran
commit_computed s a name w (raised e) = (raised e, w)
commit_computed s a name w (ok (d, documents)) = returning d (commit s a name documents w)

-- The checks before the command computes
unfoldable pub prepare : Surroundings → World → Result (Project × Semantics)
unfolding load_semantics file_at
prepare x w = do
  p ← or_raise x.project unloadable
  _ ← or_raise (require_modern_studio_identity x.claims) not_modern
  d ← load_semantics (file_at x w semantics_path)
  ok (p, d)

-- The four commands of the service
unfoldable pub run : Services → Attempt → Surroundings → Call → World → Ran
unfolding prepare compute call_name file_at
run s a x c w =
    commit_computed s a (call_name c) w
      (prepare x w >>= λ (p, d). compute x p (file_at x w timeline_path) c d)
