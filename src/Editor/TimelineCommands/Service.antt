-- ===== src/Editor/TimelineCommands/Service.antt =====
-- `TimelineCommandService`: a command loads the timeline, computes the new one, and commits it. The
-- project lock that each of its methods holds makes it the only one to run on a project.
use uv_studio.Base.{[], ◌∷◌, ◌++◌, Option, none, some, Text, codes, Outcome, ok, raised, or_raise}
use uv_studio.Json.{Json}
use uv_studio.Projects.Errors.{ValidationError}
use uv_studio.Projects.Files.{Disk, JsonFile}
use uv_studio.Projects.References.{Project}
use uv_studio.Projects.Timeline.Document.{Timeline, timeline_to_dict}
use uv_studio.Projects.Timeline.Store.{load, validate}
use uv_studio.Projects.Transactions.Model.{Bytes, World}
use uv_studio.Projects.Transactions.Commit.{Services, Attempt, commit}
use uv_studio.Editor.TimelineCommands.Commands.{
  CommandError, unloadable, rejected, escaped, uncommitted, CreateTrack, AddClip, MoveClip,
  TrimClip,
}
use uv_studio.Editor.TimelineCommands.Updates.{
  Update, create_track, add_clip, move_clip, trim_clip, remove_clip,
}

-- A call of one of the service's commands; the new id is the one that uuid4 gives.
pub data Call : Type 0 where
  creates : Text → CreateTrack → Call
  adds : Text → AddClip → Call
  moves : MoveClip → Call
  trims : TrimClip → Call
  removes : Text → Call

-- What the handler computes from the loaded timeline.
unfoldable pub call : Call → Timeline → Outcome CommandError Update
call (creates new_id command) = create_track new_id command
call (adds new_id command) = add_clip new_id command
call (moves command) = move_clip command
call (trims command) = trim_clip command
call (removes id) = remove_clip id

-- The name under which the command is committed
unfoldable pub call_name : Call → Text
call_name (creates _ _) = codes "create_track"
call_name (adds _ _) = codes "add_clip"
call_name (moves _) = codes "move_clip"
call_name (trims _) = codes "trim_clip"
call_name (removes _) = codes "remove_clip"

-- What a command reads besides the durable state: the media on disk, the project as it is loaded,
-- and `json.loads` of the bytes of a file (none where it raises, which counts as malformed).
pub record Surroundings : Type 0 where
  pub disk : Disk
  pub project_id : Text
  pub project : Outcome ValidationError Project
  pub loads : Bytes → Option Json

-- `MAIN_TIMELINE_PATH`
abbrev pub main_path : Text
main_path = codes "timeline/main.json"

-- The timeline's file, among the documents of the project
unfoldable pub parsed : Option Json → JsonFile
parsed none = JsonFile.malformed
parsed (some data_) = JsonFile.document data_

unfoldable pub timeline_file : Surroundings → World → JsonFile
unfolding parsed
timeline_file x w = elim (w.documents main_path) [
  | none ↦ JsonFile.no_file
  | some bytes ↦ parsed (x.loads bytes)
]

abbrev pub Ran : Type 0 → Type 0
Ran A = Outcome CommandError A × World

-- `_commit_timeline`, of a project that is loaded
unfoldable pub commit_timeline :
    Services → Attempt → Surroundings → Project → Text → Timeline → World → Ran (Unit {0})
commit_timeline s a x project name d w =
    let committed =
      commit s a (codes "timeline." ++ name) ((Json.str main_path, timeline_to_dict d) ∷ []) w in
    elim (validate x.disk x.project_id project d) [
      | raised e ↦ (raised (rejected e), w)
      | ok _ ↦ (or_raise committed.0 uncommitted, committed.1)
    ]

-- The update that a handler returns once it is committed
abbrev pub returning : Update → Ran (Unit {0}) → Ran Update
returning u (ok _, w) = (ok u, w)
returning u (raised e, w) = (raised e, w)

-- A handler, once the project is loaded, and once the timeline is
unfoldable pub run_on :
    Services → Attempt → Surroundings → Call → World → Project → Timeline → Ran Update
unfolding call call_name commit_timeline
run_on s a x c w project d = elim (call c d) [
  | raised e ↦ (raised e, w)
  | ok u ↦ returning u (commit_timeline s a x project (call_name c) u.timeline w)
]

-- `create_track`, `add_clip`, `move_clip`, `trim_clip` and `remove_clip` of the service
unfoldable pub run : Services → Attempt → Surroundings → Call → World → Ran Update
unfolding run_on timeline_file
run s a x c w = elim x.project [
  | raised e ↦ (raised (unloadable e), w)
  | ok project ↦ elim (load (timeline_file x w)) [
    | raised e ↦ (raised (escaped e), w)
    | ok d ↦ run_on s a x c w project d
  ]
]
