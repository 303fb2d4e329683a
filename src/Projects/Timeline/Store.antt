-- ===== src/Projects/Timeline/Store.antt =====
-- `TimelineStore`: the timeline in `timeline/main.json`, and the check of its clips against the
-- media that the project registers.
use uv_studio.Base.{
  ℕ, suc, true, not, ◌||◌, List, [], ◌∷◌, Option, none, some, Text, codes, ◌==◌, ltb, nat_eq,
  Outcome, ok, raised, ◌>>=◌, ◌>>◌, raise_if, or_raise, if◌then◌else◌,
}
use uv_studio.Base.Dict.{Dict, lookup, insert}
use uv_studio.Json.{Json, pos, get}
use uv_studio.Projects.Files.{Disk, JsonFile, resolve_project_file, is_regular, is_resolvable}
use uv_studio.Projects.References.{Reference, Project, find_reference}
use uv_studio.Projects.Timeline.Errors.{
  TimelineError, unresolved_timeline, irregular_timeline, malformed_timeline, not_main_timeline,
  project_mismatch, unregistered, bad_reference, irregular_reference, not_visual, not_audio,
  moving_still, missing_duration, past_source,
}
use uv_studio.Projects.Timeline.Clip.{Clip, source_end_us}
use uv_studio.Projects.Timeline.Track.{Track, TrackKind}
use uv_studio.Projects.Timeline.Document.{
  Timeline, empty_timeline, timeline_to_dict, timeline_from_dict,
}

-- `_TIMELINE_INPUT_ROOTS`
abbrev pub input_roots : List Text
input_roots = codes "sources" ∷ codes "assets" ∷ codes "artifacts" ∷ codes "exports" ∷ []

-- `TimelineStore.reference`: a registered reference whose path is a regular project file.
unfoldable pub reference : Disk → Project → Text → Outcome TimelineError Reference
reference disk project id = elim (find_reference project id) [
  | none ↦ raised (unregistered id)
  | some found ↦ (do
    entry ←
        or_raise (resolve_project_file disk true input_roots (Json.str found.path)) bad_reference
    raise_if (not (is_regular entry)) irregular_reference
    ok found)
]

-- `isinstance(duration, int)`, not a bool, and `duration > 0`
unfoldable pub positive_duration : Option Json → Option ℕ
positive_duration (some (Json.int (pos (suc n)))) = some (suc n)
positive_duration _ = none

abbrev pub within_source : Clip → Option ℕ → Outcome TimelineError (Unit {0})
within_source clip none = raised missing_duration
within_source clip (some duration) = raise_if (ltb duration (source_end_us clip)) past_source

-- One round of the loop, once the reference is known.
unfoldable pub check_clip : TrackKind → Reference → Clip → Outcome TimelineError (Unit {0})
unfolding positive_duration source_end_us
check_clip TrackKind.video r clip = do
  raise_if (not (r.kind == codes "video" || r.kind == codes "image")) not_visual
  if r.kind == codes "image"
      then raise_if (not (nat_eq clip.source_start_us 0)) moving_still
      else within_source clip (positive_duration (get (codes "duration_us") r.metadata))
check_clip TrackKind.audio r clip = do
  raise_if (not (r.kind == codes "audio")) not_audio
  within_source clip (positive_duration (get (codes "duration_us") r.metadata))

-- `resolved.get(clip.reference_id)`, or the reference, which is then remembered
unfoldable pub cached_reference :
    Disk → Project → Dict Reference → Text → Outcome TimelineError (Reference × Dict Reference)
unfolding reference
cached_reference disk project resolved id = elim (lookup id resolved) [
  | some r ↦ ok (r, resolved)
  | none ↦ (do r ← reference disk project id; ok (r, insert id r resolved))
]

-- The inner loop of `_validate_references`, over the clips of one track.
unfoldable pub check_clips :
    Disk → Project → TrackKind → Dict Reference → List Clip → Outcome TimelineError (Dict Reference)
unfolding cached_reference check_clip
check_clips disk project kind resolved [] = ok resolved
check_clips disk project kind resolved (clip ∷ clips) =
    cached_reference disk project resolved clip.reference_id >>= λ (r, resolved').
    check_clip kind r clip >>= λ _. check_clips disk project kind resolved' clips

-- The outer loop
unfoldable pub check_tracks :
    Disk → Project → Dict Reference → List Track → Outcome TimelineError (Dict Reference)
unfolding check_clips
check_tracks disk project resolved [] = ok resolved
check_tracks disk project resolved (t ∷ ts) =
    check_clips disk project t.kind resolved t.clips >>= λ resolved'.
    check_tracks disk project resolved' ts

unfoldable pub validate_references : Disk → Project → Timeline → Outcome TimelineError (Unit {0})
unfolding check_tracks
validate_references disk project d = check_tracks disk project [] d.tracks >>= λ _. ok tt

-- `TimelineStore.load`; the project itself has been loaded.
unfoldable pub load : JsonFile → Outcome TimelineError Timeline
load JsonFile.unresolvable_file = raised unresolved_timeline
load JsonFile.no_file = ok empty_timeline
load JsonFile.irregular_file = raised irregular_timeline
load JsonFile.malformed = raised malformed_timeline
load (JsonFile.document data_) = do
  d ← timeline_from_dict data_
  raise_if (not (d.timeline_id == codes "main")) not_main_timeline
  ok d

-- `TimelineStore.validate`
unfoldable pub validate : Disk → Text → Project → Timeline → Outcome TimelineError Timeline
unfolding validate_references
validate disk project_id project d = do
  raise_if (not (d.timeline_id == codes "main")) not_main_timeline
  raise_if (not (project.project_id == project_id)) project_mismatch
  validate_references disk project d
  ok d

-- `TimelineStore.save`: the timeline, and the document that is handed to `_atomic_write_json`, which
-- encodes it
unfoldable pub save :
    Disk → JsonFile → Text → Project → Timeline → Outcome TimelineError (Timeline × Json)
unfolding validate timeline_to_dict is_resolvable
save disk file project_id project d = do
  raise_if (not (d.timeline_id == codes "main")) not_main_timeline
  _ ← validate disk project_id project d
  raise_if (not (is_resolvable file)) unresolved_timeline
  ok (d, Json.obj (timeline_to_dict d))
