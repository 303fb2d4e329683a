-- ===== src/Examples/Commands.antt =====
-- Runs of the timeline commands' theorems, on a track of two clips that meet.
use uv_studio.Base.{
  ◌∷◌, ◌≡◌, ◌≤◌, ◌+◌, ◌<◌, ◌≢◌, refl, ◌↔◌, none, some, true, false, [], codes, ok, All, In, arith,
  ◌==◌, Text, if◌then◌else◌, inl, text_eq_iff,
}
use uv_studio.Projects.Identifiers.{matches_id, is_id_char, is_alnum, validate_identifier}
use uv_studio.Projects.Files.{Entry}
use uv_studio.Projects.Timeline.Clip.{
  Clip, make_clip, clip_arguments, time_us, flag, check_bounds, timeline_end_us, source_end_us,
  max_time_us,
}
use uv_studio.Projects.Timeline.Document.{timeline_to_dict}
use uv_studio.Projects.Timeline.Overlap.{Disjoint}
use uv_studio.Projects.Timeline.Validity.{IsTimeline}
use uv_studio.Projects.Timeline.Construction.{make_clip-IsClip}
use uv_studio.Projects.Transactions.Model.{World}
use uv_studio.Projects.Transactions.Commit.{Services}
use uv_studio.Json.{Json, num}
use uv_studio.Editor.TimelineCommands.Commands.{
  AddClip, AddArguments, make_add_clip, trial_clip, optional_identifier, text_or,
}
use uv_studio.Editor.TimelineCommands.Updates.{
  added_clip, add_clip, move_clip, trim_clip, remove_clip,
}
use uv_studio.Editor.TimelineCommands.Service.{removes, adds, call, Surroundings, run}
use uv_studio.Editor.TimelineCommands.Exchanging.{ClearOf, exchanging}
use uv_studio.Editor.TimelineCommands.Moving.{moved, trimmed, move_clip_iff, trim_clip_iff}
use uv_studio.Editor.TimelineCommands.Adding.{Addition, adding, add_clip_iff}
use uv_studio.Editor.TimelineCommands.Removing.{removing, remove_clip-eq-ok, remove_clip-add_clip}
use uv_studio.Editor.TimelineCommands.Reachability.{Reaches, Reaches-IsTimeline}
use uv_studio.Editor.TimelineCommands.Durability.{ServiceOutcome, run-ServiceOutcome}
use uv_studio.Examples.Timelines.{clip_b, track, timeline, timeline-IsTimeline}
use uv_studio.Examples.Journals.{attempt, world, world-Settled}

move_clip_iff_example :
    (move_clip (record { clip_id = codes "b"; timeline_start_us = 40 }) timeline
      ≡ ok (exchanging timeline track (moved clip_b 40)))
    ↔ ((40 + 5 ≤ max_time_us) × ClearOf (moved clip_b 40) track.clips)
move_clip_iff_example =
    move_clip_iff timeline track clip_b timeline-IsTimeline In.here (In.there In.here) 40

trim_clip_iff_example :
    (trim_clip (record { clip_id = codes "b"; source_start_us = 1; duration_us = 3 }) timeline
      ≡ ok (exchanging timeline track (trimmed clip_b 1 3)))
    ↔ ((0 < 3)
        × (10 + 3 ≤ max_time_us)
        × (1 + 3 ≤ max_time_us)
        × ClearOf (trimmed clip_b 1 3) track.clips)
trim_clip_iff_example =
    trim_clip_iff timeline track clip_b timeline-IsTimeline In.here (In.there In.here) 1 3

remove_clip-eq-ok_example : remove_clip (codes "b") timeline ≡ ok (removing timeline track clip_b)
remove_clip-eq-ok_example =
    remove_clip-eq-ok timeline track clip_b timeline-IsTimeline In.here (In.there In.here)

-- A third clip, after the others
abbrev command : AddClip
command = record {
  track_id = codes "t";
  reference_id = codes "r";
  timeline_start_us = 15;
  duration_us = 5;
  source_start_us = 0;
  clip_id = some (codes "c");
}

abbrev clip_c : Clip
clip_c = record {
  clip_id = codes "c";
  reference_id = codes "r";
  timeline_start_us = 15;
  source_start_us = 0;
  duration_us = 5;
  enabled = true;
  muted = false;
}

made_c : added_clip (text_or (codes "new") command.clip_id) command ≡ ok clip_c
unfolding added_clip text_or make_clip validate_identifier matches_id is_id_char is_alnum time_us
    flag check_bounds timeline_end_us source_end_us
made_c = refl

remade_c : make_clip (clip_arguments clip_c) ≡ ok clip_c
unfolding make_clip clip_arguments validate_identifier matches_id is_id_char is_alnum time_us flag
    check_bounds timeline_end_us source_end_us
remade_c = refl

differs : (s t : Text) → s == t ≡ false → s ≢ t
differs s t h e = let k = (text_eq_iff s t).1 e in cc

added : Addition timeline track clip_c
added = record {
  timeline = timeline-IsTimeline;
  on = In.here;
  valid = make_clip-IsClip (clip_arguments clip_c) clip_c remade_c;
  new = (
    differs (codes "a") (codes "c") (unfold ◌==◌ in refl),
    (differs (codes "b") (codes "c") (unfold ◌==◌ in refl), tt),
  );
}

add_clip_iff_example :
    (add_clip (codes "new") command timeline ≡ ok (adding timeline track clip_c))
    ↔ All (λ x. Disjoint x clip_c) track.clips
add_clip_iff_example = add_clip_iff (codes "new") command timeline track clip_c added refl made_c

adds_c : add_clip (codes "new") command timeline ≡ ok (adding timeline track clip_c)
adds_c =
    (add_clip_iff (codes "new") command timeline track clip_c added refl made_c).1
      (inl (omega arith), (inl (omega arith), tt))

remove_clip-add_clip_example :
    remove_clip (codes "c") (adding timeline track clip_c).timeline
    ≡ ok (record (adding timeline track clip_c) { timeline = timeline })
remove_clip-add_clip_example =
    remove_clip-add_clip (codes "new") command timeline (adding timeline track clip_c) (codes "c")
      timeline-IsTimeline adds_c refl

-- Adding the clip
reached : Reaches timeline (adding timeline track clip_c).timeline
unfolding call
reached =
    Reaches.step (adds (codes "new") command) (adding timeline track clip_c) adds_c Reaches.done

Reaches-IsTimeline_example : IsTimeline (adding timeline track clip_c).timeline
Reaches-IsTimeline_example = Reaches-IsTimeline timeline-IsTimeline reached

-- The command as it is constructed
abbrev arguments : AddArguments
arguments = record {
  track_id = Json.str (codes "t");
  reference_id = Json.str (codes "r");
  timeline_start_us = num 15;
  duration_us = num 5;
  source_start_us = num 0;
  clip_id = Json.str (codes "c");
}

constructed : make_add_clip arguments ≡ ok command
unfolding make_add_clip trial_clip optional_identifier text_or make_clip validate_identifier
    matches_id is_id_char is_alnum time_us flag check_bounds timeline_end_us source_end_us
constructed = refl

new-matches_id : matches_id (codes "new") ≡ true
unfolding matches_id is_id_char is_alnum
new-matches_id = refl

-- Digests are the contents; the serializer and the parser know one document.
abbrev services : Services
services = record {
  sha256 = λ b. b;
  dumps = λ d. some (4 ∷ []);
  validate = λ f staged. ok tt;
  authorized = λ f staged. ok tt;
}

abbrev surroundings : Surroundings
surroundings = record {
  disk = λ roots path. Entry.regular;
  project_id = codes "p";
  project = ok (record { project_id = codes "p"; sources = []; artifacts = [] });
  loads = λ bytes. some (Json.obj (timeline_to_dict timeline));
}

-- A project with the timeline
abbrev stored : World
stored = record world {
  documents = λ path. if path == codes "timeline/main.json" then some (2 ∷ []) else none;
}

run-ServiceOutcome_example :
    ServiceOutcome services attempt surroundings
      (removes (codes "b"))
      stored
      (run services attempt surroundings (removes (codes "b")) stored)
run-ServiceOutcome_example =
    run-ServiceOutcome services attempt surroundings (removes (codes "b")) stored world-Settled
