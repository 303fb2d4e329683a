-- ===== src/Editor/TimelineCommands/Moving.antt =====
-- `move_clip` and `trim_clip` on a valid timeline: when they return, and what.
use uv_studio.Base.{ℕ, ◌+◌, ◌≤◌, ◌<◌, ◌≡◌, refl, ◌↔◌, ok, In, All-In}
use uv_studio.Projects.Timeline.Clip.{Clip, max_time_us}
use uv_studio.Projects.Timeline.Track.{Track}
use uv_studio.Projects.Timeline.Document.{Timeline}
use uv_studio.Projects.Timeline.Validity.{IsClip, IsTrack, IsTimeline}
use uv_studio.Editor.TimelineCommands.Commands.{MoveClip, TrimClip}
use uv_studio.Editor.TimelineCommands.Updates.{Update, move_clip, trim_clip}
use uv_studio.Editor.TimelineCommands.Exchanging.{ClearOf, exchanging}
use uv_studio.Editor.TimelineCommands.Changing.{Changed, change_located_inv, change_located_iff}

-- The clip at another time
abbrev pub moved : Clip → ℕ → Clip
moved c start = record c { timeline_start_us = start }

-- Another part of the clip's source
abbrev pub trimmed : Clip → ℕ → ℕ → Clip
trimmed c start duration = record c { source_start_us = start; duration_us = duration }

-- What `move_clip` returns for a valid timeline: the timeline with the clip moved, nothing else
-- changed, and valid.
pub move_clip_inv :
    (command : MoveClip) (d : Timeline) (u : Update)
    → IsTimeline d
    → move_clip command d ≡ ok u
    → (t : Track) × (c : Clip) × Changed command.clip_id d u t c (moved c command.timeline_start_us)
unfolding move_clip
move_clip_inv command d u =
    change_located_inv (λ c. moved c command.timeline_start_us) (λ c. refl) command.clip_id d u

pub trim_clip_inv :
    (command : TrimClip) (d : Timeline) (u : Update)
    → IsTimeline d
    → trim_clip command d ≡ ok u
    → (t : Track) × (c : Clip) × Changed command.clip_id d u t c
        (trimmed c command.source_start_us command.duration_us)
unfolding trim_clip
trim_clip_inv command d u =
    change_located_inv (λ c. trimmed c command.source_start_us command.duration_us) (λ c. refl)
      command.clip_id d u

module _ (d : Timeline) (t : Track) (c : Clip) (v : IsTimeline d) (on : In t d.tracks)
    (m : In c t.clips) where
  -- From a valid timeline, `move_clip` computes the one with the clip at its new start exactly if
  -- the clip ends within the week there, and plays there at no time of another clip of its track.
  -- The computed timeline is still to be validated against the media and committed.
  pub move_clip_iff :
      (start : ℕ)
      → (move_clip (record { clip_id = c.clip_id; timeline_start_us = start }) d
          ≡ ok (exchanging d t (moved c start)))
        ↔ ((start + c.duration_us ≤ max_time_us) × ClearOf (moved c start) t.clips)
  unfolding move_clip
  move_clip_iff start =
      let valid = All-In IsClip (All-In IsTrack v.tracks on).clips m in
      let iff = change_located_iff (λ c. moved c start) (λ c. refl) d t c v on m in
      (
        λ eq. let (changed, clear) = iff.0 eq in (changed.timeline_bound, clear),
        λ (bound, clear). iff.1 (
          record {
            id = valid.id;
            reference = valid.reference;
            lasts = valid.lasts;
            timeline_bound = bound;
            source_bound = valid.source_bound;
          },
          clear,
        ),
      )

  -- From a valid timeline, `trim_clip` computes the one with the trimmed clip exactly if the new
  -- part lasts, ends within a week on the timeline and in its source, and plays at no time of
  -- another clip of its track. The computed timeline is still to be validated against the media,
  -- which bounds the part by the duration of the source, and committed.
  pub trim_clip_iff :
      (start duration : ℕ)
      → (trim_clip
            (record { clip_id = c.clip_id; source_start_us = start; duration_us = duration })
            d
          ≡ ok (exchanging d t (trimmed c start duration)))
        ↔ ((0 < duration)
            × (c.timeline_start_us + duration ≤ max_time_us)
            × (start + duration ≤ max_time_us)
            × ClearOf (trimmed c start duration) t.clips)
  unfolding trim_clip
  trim_clip_iff start duration =
      let valid = All-In IsClip (All-In IsTrack v.tracks on).clips m in
      let iff = change_located_iff (λ c. trimmed c start duration) (λ c. refl) d t c v on m in
      (
        λ eq.
            let (changed, clear) = iff.0 eq in
            (changed.lasts, changed.timeline_bound, changed.source_bound, clear),
        λ (lasts, bound, source, clear). iff.1 (
          record {
            id = valid.id;
            reference = valid.reference;
            lasts = lasts;
            timeline_bound = bound;
            source_bound = source;
          },
          clear,
        ),
      )
