-- ===== src/Production/Commands/Accepting.antt =====
-- What `accept_take` computes: the shot of the take accepts it, which it can do once; the production
-- and the timeline stay valid.
use uv_studio.Base.{
  ◌≡◌, ◌∙◌, inl, inr, true, false, map, find?, none, some, Option-cases, Text, ◌==◌, All-In, In, ok,
  ok_inj, >>=-eq-ok, raise_if, raise_if-eq-ok, or_raise, or_raise-eq-ok, traverse,
}
use uv_studio.Base.Keyed.{find-found}
use mathlib.Core.Path.{subst, ap}
use uv_studio.Json.{Json}
use uv_studio.Projects.Identifiers.{validate_identifier}
use uv_studio.Projects.Files.{Disk, JsonFile}
use uv_studio.Projects.References.{Project}
use uv_studio.Projects.Timeline.Store.{load}
use uv_studio.Projects.Timeline.Validity.{IsTimeline}
use uv_studio.Production.Semantics.Values.{SemanticError, identifier}
use uv_studio.Production.Semantics.Checks.{IsIdentifier}
use uv_studio.Production.Semantics.Entities.{Shot, Take}
use uv_studio.Production.Semantics.Entries.{IsTake}
use uv_studio.Production.Semantics.Document.{Semantics, find_shot, find_take}
use uv_studio.Production.Semantics.Reading.{IsProduction}
use uv_studio.Production.Commands.Errors.{semantic, already_accepted, bad_new_id, timeline}
use uv_studio.Production.Commands.Updates.{registered, require_visual, rebuild}
use uv_studio.Production.Commands.Showing.{accepted_clip-IsClip, add_video_clip-IsTimeline}
use uv_studio.Projects.Timeline.Reading.{load-IsTimeline}
use uv_studio.Production.Commands.Acceptance.{
  Acceptance, has_accepted, accepted_clip, add_video_clip, mark_accepted, Choice, choose, carry_out,
  accept_take,
}
use uv_studio.Production.Commands.Binding.{
  AcceptTake, validate_source_range, or_new, annotate, replace_reference,
}
use uv_studio.Production.Commands.Marking.{accepting, marked_shots}

-- What an acceptance establishes.
pub record Accepted (c : AcceptTake) (d : Semantics) (out : Acceptance) : Type 0 where
  pub take : Take
  pub shot : Shot
  pub clip_id : Text
  pub take_found : find_take d c.take_id ≡ ok take
  pub shot_found : find_shot d (Json.str take.shot_id) ≡ ok shot
  pub waiting : shot.accepted_take_id ≡ none
  pub production :
      out.production
      ≡ record d { shots = map (accepting shot.shot_id take.take_id clip_id) d.shots }
  pub valid : IsProduction out.production
  pub timeline_valid : IsTimeline out.timeline

has_accepted-none : (s : Shot) → has_accepted s ≡ false → s.accepted_take_id ≡ none
has_accepted-none s h = elim (Option-cases s.accepted_take_id) [
  | inl e ↦ e
  | inr (t, e) ↦ let k : true ≡ false = rw e at h in cc
]

find_take-In : (d : Semantics) (v : Json) (t : Take) → find_take d v ≡ ok t → In t d.takes
unfolding find_take
find_take-In d v t h =
    let (id, _, h1) = >>=-eq-ok (identifier v) _ h in
    elim (Option-cases (find? (λ t. t.take_id == id) d.takes)) [
      | inl e ↦ cc
      | inr (u, e) ↦
          let same : u ≡ t = ok_inj {E = SemanticError} (rw e at h1) in
          (find-found (λ t. t.take_id) d.takes id t (e ∙ ap some same)).0
    ]

-- The take and the shot that are chosen
choose_inv :
    (disk : Disk) (p : Project) (new_hex : Text) (c : AcceptTake) (d : Semantics) (x : Choice)
    → choose disk p new_hex c d ≡ ok x
    → (find_take d c.take_id ≡ ok x.take)
      × (find_shot d (Json.str x.take.shot_id) ≡ ok x.shot)
      × (x.shot.accepted_take_id ≡ none)
unfolding choose
choose_inv disk p new_hex c d x h =
    let (t, e0, h0) = >>=-eq-ok (or_raise (find_take d c.take_id) semantic) _ h in
    let (s, e1, h1) = >>=-eq-ok (or_raise (find_shot d (Json.str t.shot_id)) semantic) _ h0 in
    let (_, e2, h2) = >>=-eq-ok (raise_if (has_accepted s) already_accepted) _ h1 in
    let (r, _, h3) = >>=-eq-ok (registered p t.reference_id) _ h2 in
    let (_, _, h4) = >>=-eq-ok (require_visual disk r) _ h3 in
    let (_, _, h5) = >>=-eq-ok (validate_source_range r c.source_start_us c.duration_us) _ h4 in
    let (_, _, h6) = >>=-eq-ok (or_raise (validate_identifier c.track_id) bad_new_id) _ h5 in
    let (_, _, h7) =
      >>=-eq-ok (or_raise (validate_identifier (or_new new_hex c.clip_id)) bad_new_id) _ h6 in
    subst
      (λ (y : Choice).
        (find_take d c.take_id ≡ ok y.take)
        × (find_shot d (Json.str y.take.shot_id) ≡ ok y.shot)
        × (y.shot.accepted_take_id ≡ none))
      (ok_inj h7)
      (
        or_raise-eq-ok (find_take d c.take_id) semantic e0,
        or_raise-eq-ok (find_shot d (Json.str t.shot_id)) semantic e1,
        has_accepted-none s (raise_if-eq-ok (has_accepted s) already_accepted e2),
      )

-- The production and the timeline that are computed
abbrev CarriedOut : Semantics → Choice → Acceptance → Type 0
CarriedOut d x out =
    (clip_id : Text) × (out.production
      ≡ record d { shots = map (accepting x.shot.shot_id x.take.take_id clip_id) d.shots })
    × IsProduction out.production
    × IsTimeline out.timeline

carry_out_inv :
    (p : Project) (file : JsonFile) (c : AcceptTake) (d : Semantics) (x : Choice) (out : Acceptance)
    → IsProduction d
    → IsIdentifier x.take.take_id
    → carry_out p file c d x ≡ ok out
    → CarriedOut d x out
unfolding carry_out
carry_out_inv p file c d x out v named h =
    let (r, _, h8) =
      >>=-eq-ok (annotate x.reference x.shot.shot_id x.take.take_id x.clip_id c) _ h in
    let (q, _, h9) = >>=-eq-ok (replace_reference p x.reference.id r) _ h8 in
    let (tl, e10, h10) = >>=-eq-ok (or_raise (load file) timeline) _ h9 in
    let (clip, e11, h11) = >>=-eq-ok (accepted_clip x.clip_id x.reference.id c) _ h10 in
    let (tl', e12, h12) = >>=-eq-ok (add_video_clip tl x.track_id clip) _ h11 in
    let (ss, e13, h13) =
      >>=-eq-ok (traverse (mark_accepted x.shot.shot_id x.take.take_id clip.clip_id) d.shots) _
        h12 in
    let (pr, e14, h14) = >>=-eq-ok (rebuild d.scenes ss d.takes) _ h13 in
    let (same, valid) =
      marked_shots d x.shot.shot_id x.take.take_id clip.clip_id ss pr v named e13 e14 in
    let loaded = (load-IsTimeline file tl (or_raise-eq-ok (load file) timeline e10)).0 in
    let shows =
      add_video_clip-IsTimeline tl tl' x.track_id clip loaded
        (accepted_clip-IsClip x.clip_id x.reference.id c clip e11) e12 in
    subst (CarriedOut d x) (ok_inj h14) (clip.clip_id, same, valid, shows)

-- Accepting a take, where it succeeds: its shot had accepted none, and accepts it now; no other shot,
-- no scene and no take changes; production and timeline are valid.
pub accept_take-Accepted :
    (disk : Disk) (p : Project) (file : JsonFile) (new_hex : Text) (c : AcceptTake) (d : Semantics)
    (out : Acceptance)
    → IsProduction d
    → accept_take disk p file new_hex c d ≡ ok out
    → Accepted c d out
unfolding accept_take
accept_take-Accepted disk p file new_hex c d out v h =
    let (x, e, k) = >>=-eq-ok (choose disk p new_hex c d) (carry_out p file c d) h in
    let (taken, shown, waiting) = choose_inv disk p new_hex c d x e in
    let named = (All-In IsTake v.takes (find_take-In d c.take_id x.take taken)).id in
    let (clip_id, same, valid, timeline_valid) = carry_out_inv p file c d x out v named k in
    record {
      take = x.take;
      shot = x.shot;
      clip_id = clip_id;
      take_found = taken;
      shot_found = shown;
      waiting = waiting;
      production = same;
      valid = valid;
      timeline_valid = timeline_valid;
    }
