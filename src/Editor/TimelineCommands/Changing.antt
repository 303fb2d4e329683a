-- ===== src/Editor/TimelineCommands/Changing.antt =====
-- A located clip, changed and put back: what `move_clip` and `trim_clip` share.
use uv_studio.Base.{
  ℕ, ◌≡◌, refl, sym, ◌∙◌, ◌↔◌, Text, Outcome, ok, ◌>>=◌, or_raise, >>=-eq-ok, or_raise-eq-ok,
  ok_inj, arith, In,
}
use mathlib.Core.Path.{subst}
use uv_studio.Json.{Json, num}
use uv_studio.Projects.Identifiers.{validate_identifier-eq-ok}
use uv_studio.Projects.Timeline.Clip.{Clip, ClipArguments, clip_arguments, make_clip, check_bounds}
use uv_studio.Projects.Timeline.Track.{Track}
use uv_studio.Projects.Timeline.Document.{Timeline, locate_clip}
use uv_studio.Projects.Timeline.Validity.{IsClip, IsTimeline}
use uv_studio.Projects.Timeline.Construction.{make_clip-IsClip, make_clip_iff, time_us-eq-ok}
use uv_studio.Projects.Timeline.Lookup.{Found, locate_clip-Found, locate_clip_unique}
use uv_studio.Editor.TimelineCommands.Commands.{CommandError, clip_missing, escaped}
use uv_studio.Editor.TimelineCommands.Updates.{Update, located, put_clip}
use uv_studio.Editor.TimelineCommands.Exchanging.{ClearOf, exchanging, put_clip-eq-ok, put_clip_inv}

-- A clip keeps the arguments of its construction.
pub make_clip_inv :
    (a : ClipArguments) (c : Clip)
    → make_clip a ≡ ok c
    → (a.clip_id ≡ Json.str c.clip_id)
      × (a.reference_id ≡ Json.str c.reference_id)
      × (a.timeline_start_us ≡ num c.timeline_start_us)
      × (a.source_start_us ≡ num c.source_start_us)
      × (a.duration_us ≡ num c.duration_us)
unfolding make_clip check_bounds
make_clip_inv a c h = ground (
  arith,
  validate_identifier-eq-ok a.clip_id c.clip_id,
  validate_identifier-eq-ok a.reference_id c.reference_id,
  time_us-eq-ok 0 a.timeline_start_us c.timeline_start_us,
  time_us-eq-ok 0 a.source_start_us c.source_start_us,
  time_us-eq-ok 1 a.duration_us c.duration_us,
)

num_inj : (m n : ℕ) → num m ≡ num n → m ≡ n
num_inj m n h = cc

pub str_inj : (s t : Text) → Json.str s ≡ Json.str t → s ≡ t
str_inj s t h = cc

-- A clip whose fields are accepted again is valid.
pub make_clip_valid : (c m : Clip) → make_clip (clip_arguments c) ≡ ok m → IsClip c
unfolding clip_arguments
make_clip_valid c m h =
    let v = make_clip-IsClip (clip_arguments c) m h in
    let (id, reference, start, source, duration) = make_clip_inv (clip_arguments c) m h in
    let starts = num_inj c.timeline_start_us m.timeline_start_us start in
    let begins = num_inj c.source_start_us m.source_start_us source in
    let takes = num_inj c.duration_us m.duration_us duration in
    record {
      id = rw (str_inj c.clip_id m.clip_id id) v.id;
      reference = rw (str_inj c.reference_id m.reference_id reference) v.reference;
      lasts = omega (arith, takes, v.lasts);
      timeline_bound = omega (arith, starts, takes, v.timeline_bound);
      source_bound = omega (arith, begins, takes, v.source_bound);
    }

-- The id of a located clip leads to its track and to it.
pub located-Found :
    (d : Timeline) (id : Text) (t : Track) (c : Clip)
    → located d id ≡ ok (t, c)
    → Found id d.tracks t c
unfolding located
located-Found d id t c h =
    locate_clip-Found d id t c (or_raise-eq-ok (locate_clip d id) (λ _. clip_missing id) h)

pub located_unique :
    (d : Timeline) (t : Track) (c : Clip)
    → IsTimeline d
    → In t d.tracks
    → In c t.clips
    → located d c.clip_id ≡ ok (t, c)
unfolding located
located_unique d t c v on m = rw (locate_clip_unique d t c v on m) refl

-- What a change of a clip comes to, once it is returned.
pub record Changed (id : Text) (d : Timeline) (u : Update) (t : Track) (c changed : Clip)
    : Type 0 where
  pub found : Found id d.tracks t c
  pub valid : IsClip changed
  pub clear : ClearOf changed t.clips
  pub same : u ≡ exchanging d t changed
  pub timeline : IsTimeline u.timeline

module _ (f : Clip → Clip) (same : (c : Clip) → (f c).clip_id ≡ c.clip_id) where
  abbrev pub change_located : Text → Timeline → Outcome CommandError Update
  change_located id d = located d id >>= λ (track, clip).
      or_raise (make_clip (clip_arguments (f clip))) escaped >>= λ changed.
      put_clip d track clip changed

  change_found_inv :
      (d : Timeline) (t : Track) (c : Clip) (u : Update)
      → IsTimeline d
      → Found c.clip_id d.tracks t c
      → (or_raise (make_clip (clip_arguments (f c))) escaped >>= λ m. put_clip d t c m) ≡ ok u
      → Changed c.clip_id d u t c (f c)
  change_found_inv d t c u v found k =
      let (m, made, k') =
        >>=-eq-ok (or_raise (make_clip (clip_arguments (f c))) escaped) (λ m. put_clip d t c m) k in
      let e = or_raise-eq-ok (make_clip (clip_arguments (f c))) escaped made in
      let valid = make_clip_valid (f c) m e in
      let exact = ok_inj (sym e ∙ (make_clip_iff (f c)).1 valid) in
      let (is, clear, result) =
        put_clip_inv d t c (f c)
          (record {
            timeline = v;
            on = found.track;
            clip = found.clip;
            same = same c;
            valid = valid;
          })
          u (subst (λ x. put_clip d t c x ≡ ok u) exact k') in
      record { found = found; valid = valid; clear = clear; same = is; timeline = result }

  pub change_located_inv :
      (id : Text) (d : Timeline) (u : Update)
      → IsTimeline d
      → change_located id d ≡ ok u
      → (t : Track) × (c : Clip) × Changed id d u t c (f c)
  change_located_inv id d u v eq =
      let ((t, c), r, k) = >>=-eq-ok (located d id) _ eq in
      let found = located-Found d id t c r in
      let own : Found c.clip_id d.tracks t c = record {
        track = found.track;
        clip = found.clip;
        named = refl;
      } in
      (t, c, subst (λ id. Changed id d u t c (f c)) found.named (change_found_inv d t c u v own k))

  pub change_located_iff :
      (d : Timeline) (t : Track) (c : Clip)
      → IsTimeline d
      → In t d.tracks
      → In c t.clips
      → (change_located c.clip_id d ≡ ok (exchanging d t (f c)))
        ↔ (IsClip (f c) × ClearOf (f c) t.clips)
  change_located_iff d t c v on m = (
    λ eq.
        let r =
          change_found_inv d t c (exchanging d t (f c)) v
            (record { track = on; clip = m; named = refl })
            (rw (located_unique d t c v on m) at eq) in
        (r.valid, r.clear),
    λ (valid, clear).
        rw
          (
            located_unique d t c v on m,
            (make_clip_iff (f c)).1 valid,
            put_clip-eq-ok d t c (f c)
                (record { timeline = v; on = on; clip = m; same = same c; valid = valid }) clear,
          )
          refl,
  )
