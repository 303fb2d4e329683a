-- ===== src/Production/Commands/Binding.antt =====
-- What `accept_take` checks and records of the take's reference. The reference and the project are
-- taken as they are constructed: that `dataclasses.replace` constructs them anew is left out, and so
-- is the time of the update.
use uv_studio.Base.{
  ℕ, ◌+◌, Bool, true, false, not, ◌||◌, List, [], ◌∷◌, ◌++◌, map, Option, none, some, Text, codes,
  ◌==◌, ltb, nat_eq, any, is_empty, ok, raised, ◌>>=◌, ◌>>◌, raise_if, if◌then◌else◌,
}
use uv_studio.Json.{
  int_of, set_field, ℤ, Json, Items, Fields, pos, negsuc, end, field, get, get_or, of_list, to_list,
}
use uv_studio.Projects.References.{Reference, Project}
use uv_studio.Projects.Timeline.Store.{positive_duration}
use uv_studio.Production.Commands.Updates.{Result}
use uv_studio.Production.Commands.Errors.{
  ProductionError, source_start_not_int, duration_not_int, negative_source_start, no_duration,
  image_offset, missing_duration, past_source, bad_bindings, bound_already, vanished,
}

-- The keyword arguments of the command
pub record AcceptTake : Type 0 where
  pub take_id : Json
  pub timeline_start_us : Json
  pub duration_us : Json
  pub source_start_us : Json
  pub track_id : Json
  pub clip_id : Json

abbrev pub required_int : ProductionError → Json → Result ℤ
required_int e v = elim (int_of v) [ none ↦ raised e | some n ↦ ok n ]

-- `n` where it is not negative
abbrev pub non_negative : ProductionError → ℤ → Result ℕ
non_negative e (pos n) = ok n
non_negative e (negsuc n) = raised e

-- The end of `_validate_source_range`, for an image and for a video
unfoldable pub within_media : Reference → ℕ → ℕ → Result (Unit {0})
within_media r start duration =
    if r.kind == codes "image"
    then raise_if (not (nat_eq start 0)) image_offset
    else elim (positive_duration (get (codes "duration_us") r.metadata)) [
      | none ↦ raised missing_duration
      | some total ↦ raise_if (ltb total (start + duration)) past_source
    ]

-- `_validate_source_range`
unfoldable pub validate_source_range : Reference → Json → Json → Result (Unit {0})
unfolding int_of within_media
validate_source_range r source_start_us duration_us = do
  s ← required_int source_start_not_int source_start_us
  d ← required_int duration_not_int duration_us
  start ← non_negative negative_source_start s
  duration ← non_negative no_duration d
  raise_if (nat_eq duration 0) no_duration
  within_media r start duration

-- `not value`
unfoldable pub is_falsy : Json → Bool
is_falsy Json.null = true
is_falsy (Json.bool b) = not b
is_falsy (Json.int (pos n)) = nat_eq n 0
is_falsy (Json.int (negsuc n)) = false
is_falsy (Json.float bits) = nat_eq bits 0 || nat_eq bits 0x8000000000000000
is_falsy (Json.str s) = is_empty s
is_falsy (Json.arr Items.nil) = true
is_falsy (Json.arr (Items.cons _ _)) = false
is_falsy (Json.obj Fields.end) = true
is_falsy (Json.obj (Fields.field _ _ _)) = false

-- `clip_id or f"clip_{uuid.uuid4().hex}"`; the first argument is the new hex text.
unfoldable pub or_new : Text → Json → Json
unfolding is_falsy
or_new new_hex v = if is_falsy v then Json.str (codes "clip_" ++ new_hex) else v

abbrev pub is_object : Json → Bool
is_object (Json.obj _) = true
is_object _ = false

-- `item.get("shot_id") == shot_id`
unfoldable pub is_text : Text → Option Json → Bool
is_text s (some (Json.str t)) = t == s
is_text s _ = false

unfoldable pub binds_shot : Text → Json → Bool
unfolding is_text
binds_shot shot_id (Json.obj d) = is_text shot_id (get (codes "shot_id") d)
binds_shot shot_id _ = false

-- `metadata.get("production_acceptances", [])`, which must be a list of objects
unfoldable pub bindings_of : Json → Result (List Json)
bindings_of (Json.arr items) =
    raise_if (any (λ v. not (is_object v)) (to_list items)) bad_bindings >> ok (to_list items)
bindings_of _ = raised bad_bindings

-- What the reference's metadata records of an acceptance
abbrev pub binding : Text → Text → Text → AcceptTake → Json
binding shot_id take_id clip_id c = Json.obj (
    field (codes "shot_id") (Json.str shot_id) (
      field (codes "take_id") (Json.str take_id) (
        field (codes "timeline_clip_id") (Json.str clip_id) (
          field (codes "source_start_us") c.source_start_us
            (field (codes "duration_us") c.duration_us end)))))

-- `_annotate_accepted_reference`
unfoldable pub annotate : Reference → Text → Text → Text → AcceptTake → Result Reference
unfolding bindings_of binds_shot set_field
annotate r shot_id take_id clip_id c = do
  bindings ← bindings_of (get_or (codes "production_acceptances") (Json.arr Items.nil) r.metadata)
  raise_if (any (binds_shot shot_id) bindings) bound_already
  ok (record r {
    metadata =
        set_field (codes "production_acceptances")
          (Json.arr (of_list (bindings ++ binding shot_id take_id clip_id c ∷ [])))
          (set_field (codes "production_role") (Json.str (codes "accepted_take")) r.metadata);
  })

-- `_replace_project_reference`
unfoldable pub replace_reference : Project → Text → Reference → Result Project
replace_reference p id r = do
  raise_if (not (any (λ x. x.id == id) (p.sources ++ p.artifacts))) vanished
  ok (record p {
    sources = map (λ x. if x.id == id then r else x) p.sources;
    artifacts = map (λ x. if x.id == id then r else x) p.artifacts;
  })
