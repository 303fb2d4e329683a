-- ===== src/Editor/TimelineCommands/Constructing.antt =====
-- What the construction of `AddClipCommand` ensures of the clip that `add_clip` makes.
use uv_studio.Base.{
  ◌≡◌, refl, true, false, Text, Option, none, some, is_empty, ok, ◌>>=◌, or_raise, >>=-eq-ok,
  or_raise-eq-ok, ok_inj, Bool-cases, inl, inr,
}
use mathlib.Core.Path.{subst}
use uv_studio.Json.{Json}
use uv_studio.Projects.Identifiers.{matches_id, validate_identifier, validate_identifier-eq-ok}
use uv_studio.Projects.Timeline.Clip.{Clip, make_clip, clip_arguments}
use uv_studio.Projects.Timeline.Validity.{IsClip}
use uv_studio.Projects.Timeline.Construction.{make_clip-IsClip, make_clip_iff}
use uv_studio.Editor.TimelineCommands.Commands.{
  bad_identifier, bad_clip, AddClip, AddArguments, optional_identifier, text_or, trial_clip,
  make_add_clip,
}
use uv_studio.Editor.TimelineCommands.Updates.{added_clip}

-- An id that is given is valid.
abbrev Named : Option Text → Type 0
Named none = Unit
Named (some s) = matches_id s ≡ true

matches-validated :
    (v : Json) (s : Text)
    → or_raise (validate_identifier v) bad_identifier ≡ ok s
    → matches_id s ≡ true
matches-validated v s h =
    (validate_identifier-eq-ok v s (or_raise-eq-ok (validate_identifier v) bad_identifier h)).1

given_id :
    (v : Json) (o : Option Text)
    → (or_raise (validate_identifier v) bad_identifier >>= λ s. ok (some s)) ≡ ok o
    → Named o
given_id v o h =
    let (s, k, e) =
      >>=-eq-ok (or_raise (validate_identifier v) bad_identifier) (λ s. ok (some s)) h in
    subst Named (ok_inj e) (matches-validated v s k)

optional_identifier-Named : (v : Json) (o : Option Text) → optional_identifier v ≡ ok o → Named o
unfolding optional_identifier
optional_identifier-Named Json.null o h = subst Named (ok_inj h) tt
optional_identifier-Named (Json.bool b) o h = given_id (Json.bool b) o h
optional_identifier-Named (Json.int n) o h = given_id (Json.int n) o h
optional_identifier-Named (Json.float n) o h = given_id (Json.float n) o h
optional_identifier-Named (Json.str s) o h = given_id (Json.str s) o h
optional_identifier-Named (Json.arr xs) o h = given_id (Json.arr xs) o h
optional_identifier-Named (Json.obj f) o h = given_id (Json.obj f) o h

matches-text_or :
    (new : Text) (o : Option Text)
    → matches_id new ≡ true
    → Named o
    → matches_id (text_or new o) ≡ true
unfolding text_or
matches-text_or new none m h = m
matches-text_or new (some s) m h = elim (Bool-cases (is_empty s)) [
  | inl e ↦ rw (e, text_or) m
  | inr e ↦ rw (e, text_or) h
]

-- The clip of a command, with an id
abbrev pub clip_of : AddClip → Text → Clip
clip_of command id = record {
  clip_id = id;
  reference_id = command.reference_id;
  timeline_start_us = command.timeline_start_us;
  source_start_us = command.source_start_us;
  duration_us = command.duration_us;
  enabled = true;
  muted = false;
}

added_clip-clip_of :
    (command : AddClip) (id : Text)
    → IsClip (clip_of command id)
    → added_clip id command ≡ ok (clip_of command id)
unfolding added_clip clip_arguments
added_clip-clip_of command id v = rw ((make_clip_iff (clip_of command id)).1 v) refl

-- A command that is constructed gives, with a generated id that is an identifier, a valid clip:
-- the construction of the clip in `add_clip`, which stands outside its `try`, never raises.
pub added_clip_total :
    (a : AddArguments) (command : AddClip) (new_id : Text)
    → make_add_clip a ≡ ok command
    → matches_id new_id ≡ true
    → (c : Clip) × (added_clip (text_or new_id command.clip_id) command ≡ ok c) × IsClip c
unfolding make_add_clip
added_clip_total a command new_id h m =
    let (track, _, k) = >>=-eq-ok (or_raise (validate_identifier a.track_id) bad_identifier) _ h in
    let (reference, named, k1) =
      >>=-eq-ok (or_raise (validate_identifier a.reference_id) bad_identifier) _ k in
    let (o, given, k2) = >>=-eq-ok (optional_identifier a.clip_id) _ k1 in
    let (clip, made, k3) =
      >>=-eq-ok (or_raise (make_clip (trial_clip a reference o)) bad_clip) _ k2 in
    let valid =
      make_clip-IsClip (trial_clip a reference o) clip
        (or_raise-eq-ok (make_clip (trial_clip a reference o)) bad_clip made) in
    let goal : AddClip → Type 0 = λ command.
      (c : Clip) × (added_clip (text_or new_id command.clip_id) command ≡ ok c) × IsClip c in
    let own : AddClip = record {
      track_id = track;
      reference_id = reference;
      timeline_start_us = clip.timeline_start_us;
      duration_us = clip.duration_us;
      source_start_us = clip.source_start_us;
      clip_id = o;
    } in
    let id = text_or new_id o in
    let is : IsClip (clip_of own id) = record {
      id = matches-text_or new_id o m (optional_identifier-Named a.clip_id o given);
      reference = matches-validated a.reference_id reference named;
      lasts = valid.lasts;
      timeline_bound = valid.timeline_bound;
      source_bound = valid.source_bound;
    } in
    subst goal (ok_inj k3) (clip_of own id, added_clip-clip_of own id is, is)
