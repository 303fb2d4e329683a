-- ===== src/Production/Commands/Acceptance.antt =====
-- `accept_take` up to its commit: the production, the timeline and the project that it computes.
use uv_studio.Base.{
  Bool, true, false, not, List, [], ◌∷◌, ◌++◌, none, some, Text, codes, ◌==◌, any, ok, ◌>>=◌, ◌>>◌,
  raise_if, or_raise, traverse, if◌then◌else◌,
}
use uv_studio.Json.{Json, num}
use uv_studio.Projects.Identifiers.{validate_identifier}
use uv_studio.Projects.Files.{Disk, JsonFile}
use uv_studio.Projects.References.{Reference, Project}
use uv_studio.Projects.Timeline.Clip.{Clip, make_clip}
use uv_studio.Projects.Timeline.Track.{Track, TrackKind, make_track, replace_clips}
use uv_studio.Projects.Timeline.Document.{Timeline, make_timeline}
use uv_studio.Projects.Timeline.Store.{load}
use uv_studio.Production.Semantics.Values.{id_list}
use uv_studio.Production.Semantics.Entities.{Shot, Take, make_shot, shot_arguments}
use uv_studio.Production.Semantics.Document.{Semantics, find_shot, find_take}
use uv_studio.Production.Commands.Updates.{Result, registered, require_visual, rebuild}
use uv_studio.Production.Commands.Errors.{
  semantic, already_accepted, bad_new_id, timeline, not_video,
}
use uv_studio.Production.Commands.Binding.{
  AcceptTake, validate_source_range, or_new, annotate, replace_reference,
}

abbrev pub is_video : Track → Bool
is_video t = elim t.kind [ TrackKind.video ↦ true | TrackKind.audio ↦ false ]

-- One turn of the loop of `_add_video_clip`
unfoldable pub put_clip : Text → Clip → Track → Result Track
put_clip id clip t =
    if t.track_id == id
    then raise_if (not (is_video t)) not_video
      >> or_raise (replace_clips t (t.clips ++ clip ∷ [])) timeline
    else ok t

-- The track that is made where there is none of this id
unfoldable pub missing_track : Text → Clip → List Track → Result (List Track)
missing_track id clip tracks =
    if any (λ t. t.track_id == id) tracks
    then ok []
    else or_raise
        (make_track (record {
          track_id = Json.str id;
          kind = Json.str (codes "video");
          title = Json.str (codes "Production Video");
          clips = clip ∷ [];
          enabled = Json.bool true;
          muted = Json.bool false;
        }))
        timeline
      >>= λ t. ok (t ∷ [])

-- `_add_video_clip`
unfoldable pub add_video_clip : Timeline → Text → Clip → Result Timeline
unfolding put_clip missing_track
add_video_clip d id clip = do
  tracks ← traverse (put_clip id clip) d.tracks
  new ← missing_track id clip d.tracks
  or_raise (make_timeline (num 1) (Json.str d.timeline_id) (tracks ++ new)) timeline

-- `TimelineClip(...)` of the command
unfoldable pub accepted_clip : Text → Text → AcceptTake → Result Clip
accepted_clip clip_id reference_id c =
    or_raise
      (make_clip (record {
        clip_id = Json.str clip_id;
        reference_id = Json.str reference_id;
        timeline_start_us = c.timeline_start_us;
        source_start_us = c.source_start_us;
        duration_us = c.duration_us;
        enabled = Json.bool true;
        muted = Json.bool false;
      }))
      timeline

-- `replace(item, accepted_take_id=..., timeline_clip_ids=...)` for the take's shot
unfoldable pub mark_accepted : Text → Text → Text → Shot → Result Shot
mark_accepted shot_id take_id clip_id s =
    if s.shot_id == shot_id
    then or_raise
        (make_shot (record (shot_arguments s) {
          accepted_take_id = Json.str take_id;
          timeline_clip_ids = id_list (s.timeline_clip_ids ++ clip_id ∷ []);
        }))
        semantic
    else ok s

abbrev pub has_accepted : Shot → Bool
has_accepted s = elim s.accepted_take_id [ none ↦ false | some _ ↦ true ]

-- The three documents of the commit
pub record Acceptance : Type 0 where
  pub project : Project
  pub production : Semantics
  pub timeline : Timeline

-- What the command has found and checked before it computes the documents
pub record Choice : Type 0 where
  pub take : Take
  pub shot : Shot
  pub reference : Reference
  pub track_id : Text
  pub clip_id : Text

-- The first half of `accept_take`
unfoldable pub choose : Disk → Project → Text → AcceptTake → Semantics → Result Choice
unfolding validate_source_range or_new
choose disk p new_hex c d = do
  take ← or_raise (find_take d c.take_id) semantic
  shot ← or_raise (find_shot d (Json.str take.shot_id)) semantic
  raise_if (has_accepted shot) already_accepted
  reference ← registered p take.reference_id
  require_visual disk reference
  validate_source_range reference c.source_start_us c.duration_us
  track_id ← or_raise (validate_identifier c.track_id) bad_new_id
  clip_id ← or_raise (validate_identifier (or_new new_hex c.clip_id)) bad_new_id
  ok (record {
    take = take;
    shot = shot;
    reference = reference;
    track_id = track_id;
    clip_id = clip_id;
  })

-- The second half, up to the commit
unfoldable pub carry_out : Project → JsonFile → AcceptTake → Semantics → Choice → Result Acceptance
unfolding annotate replace_reference add_video_clip accepted_clip mark_accepted
carry_out p file c d x = do
  annotated ← annotate x.reference x.shot.shot_id x.take.take_id x.clip_id c
  project ← replace_reference p x.reference.id annotated
  loaded ← or_raise (load file) timeline
  clip ← accepted_clip x.clip_id x.reference.id c
  updated ← add_video_clip loaded x.track_id clip
  shots ← traverse (mark_accepted x.shot.shot_id x.take.take_id clip.clip_id) d.shots
  production ← rebuild d.scenes shots d.takes
  ok (record { project = project; production = production; timeline = updated })

unfoldable pub accept_take :
    Disk → Project → JsonFile → Text → AcceptTake → Semantics → Result Acceptance
unfolding choose carry_out
accept_take disk p file new_hex c d = choose disk p new_hex c d >>= carry_out p file c d
