-- ===== src/Editor/TimelineCommands/Exchanging.antt =====
-- A changed clip in the place of another: when a track accepts it.
use uv_studio.Base.{
  ◌≡◌, ◌≢◌, refl, sym, ap, ◌∙◌, ◌↔◌, List, [], ◌∷◌, Text, ◌==◌, text_eq_refl, text_eq_ne,
  text_eq_iff, All, AllPairs, All-map, In-All, In, here, there, All-In, All-of_map, AllPairs-of_map,
  ok, some, Bool-cases, inl, inr, >>=-eq-ok, ok_inj,
}
use mathlib.Core.Path.{subst}
use uv_studio.Projects.Timeline.Clip.{Clip}
use uv_studio.Projects.Timeline.Track.{Track, clip_ids}
use uv_studio.Projects.Timeline.Document.{Timeline, all_clips}
use uv_studio.Projects.Timeline.Overlap.{Disjoint, Disjoint-swap}
use uv_studio.Projects.Timeline.Validity.{IsClip, IsTrack, IsTimeline, DifferentIds}
use uv_studio.Editor.TimelineCommands.Updates.{Update, exchange, put_clip, put_clips}
use uv_studio.Editor.TimelineCommands.Replacing.{
  Clips, exchanged, put_clips_iff, put_clips_inv, put_clips-IsTimeline,
}

-- The clip is disjoint from the clips with other ids.
abbrev pub ClearOf : Clip → List Clip → Type 0
ClearOf c = All (λ x. x.clip_id ≢ c.clip_id → Disjoint c x)

-- No id is new.
abbrev pub None : Text → Type 0
None n = n ≢ n

module _ (id : Text) (changed : Clip) where
  All-exchange {ℓ} :
      (P : Clip → Type ℓ) (cs : List Clip) → P changed → All P cs → All P (exchange id changed cs)
  unfolding exchange
  All-exchange P [] p h = tt
  All-exchange P (x ∷ cs) p h = elim (Bool-cases (x.clip_id == id)) [
    | inl e ↦ rw (e, exchange) (p, All-exchange P cs p h.1)
    | inr e ↦ rw (e, exchange) (h.0, All-exchange P cs p h.1)
  ]

  exchange-other : (cs : List Clip) → All (λ x. x.clip_id ≢ id) cs → exchange id changed cs ≡ cs
  unfolding exchange
  exchange-other [] h = refl
  exchange-other (x ∷ cs) h =
      rw (text_eq_ne x.clip_id id h.0, exchange) (ap (◌∷◌ x) (exchange-other cs h.1))

  clip_ids-exchange :
      (cs : List Clip) → changed.clip_id ≡ id → clip_ids (exchange id changed cs) ≡ clip_ids cs
  unfolding exchange
  clip_ids-exchange [] same = refl
  clip_ids-exchange (x ∷ cs) same = elim (Bool-cases (x.clip_id == id)) [
    | inl e ↦
        rw (e, same, (text_eq_iff x.clip_id id).0 e, exchange)
          (ap (◌∷◌ id) (clip_ids-exchange cs same))
    | inr e ↦ rw (e, exchange) (ap (◌∷◌ x.clip_id) (clip_ids-exchange cs same))
  ]

  In-exchange :
      (c : Clip) (cs : List Clip) → c.clip_id ≡ id → In c cs → In changed (exchange id changed cs)
  unfolding exchange
  In-exchange c [] same m = elim m [ ]
  In-exchange c (_ ∷ cs) same here = rw (same, text_eq_refl id, exchange) here
  In-exchange c (x ∷ cs) same (there m) = elim (Bool-cases (x.clip_id == id)) [
    | inl e ↦ rw (e, exchange) here
    | inr e ↦ rw (e, exchange) (there (In-exchange c cs same m))
  ]

module _ (changed : Clip) where
  -- The clips with the changed one are disjoint exactly if it is disjoint from the others.
  pub Disjoint-exchange_iff :
      (c : Clip) (cs : List Clip)
      → c.clip_id ≡ changed.clip_id
      → In c cs
      → AllPairs DifferentIds cs
      → AllPairs Disjoint cs
      → AllPairs Disjoint (exchange changed.clip_id changed cs) ↔ ClearOf changed cs
  unfolding exchange
  Disjoint-exchange_iff c cs same m ids v = (forth c cs same m ids, back cs ids v)
    where
      forth :
          (c : Clip) (cs : List Clip)
          → c.clip_id ≡ changed.clip_id
          → In c cs
          → AllPairs DifferentIds cs
          → AllPairs Disjoint (exchange changed.clip_id changed cs)
          → ClearOf changed cs
      forth c [] same m ids h = elim m [ ]
      forth c (_ ∷ cs) same here ids h =
          let other = All-map (λ x n e. n (same ∙ sym e)) cs ids.0 in
          let k =
            rw
              (
                same,
                text_eq_refl changed.clip_id,
                exchange-other changed.clip_id changed cs other,
                exchange,
              )
              at h in
          (λ n. absurd (n same), All-map (λ x d n. d) cs k.0)
      forth c (x ∷ cs) same (there m) ids h =
          let k =
            rw
              (
                text_eq_ne x.clip_id changed.clip_id
                    (λ e. All-In (DifferentIds x) ids.0 m (e ∙ sym same)),
                exchange,
              )
              at h in
          let d = All-In (Disjoint x) k.0 (In-exchange changed.clip_id changed c cs same m) in
          (λ n. Disjoint-swap x changed d, forth c cs same m ids.1 k.1)

      back :
          (cs : List Clip)
          → AllPairs DifferentIds cs
          → AllPairs Disjoint cs
          → ClearOf changed cs
          → AllPairs Disjoint (exchange changed.clip_id changed cs)
      back [] ids v h = tt
      back (x ∷ cs) ids v h = elim (Bool-cases (x.clip_id == changed.clip_id)) [
        | inl e ↦
            let same = (text_eq_iff x.clip_id changed.clip_id).0 e in
            let other = All-map (λ y n q. n (same ∙ sym q)) cs ids.0 in
            rw (e, exchange-other changed.clip_id changed cs other, exchange)
              (In-All (Disjoint changed) cs (λ y m. All-In _ h.1 m (All-In _ other m)), v.1)
        | inr e ↦
            rw (e, exchange)
              (
                All-exchange changed.clip_id changed (Disjoint x) cs
                    (Disjoint-swap changed x
                      (h.0 (λ q. let k = (text_eq_iff x.clip_id changed.clip_id).1 q in cc)))
                    v.0,
                back cs ids.1 v.1 h.1,
              )
      ]

-- A clip of a valid timeline, and the one that is to replace it.
pub record Change (d : Timeline) (t : Track) (c changed : Clip) : Type 0 where
  pub timeline : IsTimeline d
  pub on : In t d.tracks
  pub clip : In c t.clips
  pub same : changed.clip_id ≡ c.clip_id
  pub valid : IsClip changed

-- The update that replaces the clip
abbrev pub exchanging : Timeline → Track → Clip → Update
unfolding exchange
exchanging d t changed = record {
  timeline = exchanged d t (exchange changed.clip_id changed t.clips);
  track_id = t.track_id;
  clip_id = some changed.clip_id;
}

module _ (d : Timeline) (t : Track) (c changed : Clip) (h : Change d t c changed) where
  exchange-Clips : Clips None d t (exchange changed.clip_id changed t.clips)
  exchange-Clips =
      let v = All-In IsTrack h.timeline.tracks h.on in
      let ids = clip_ids-exchange changed.clip_id changed t.clips refl in
      record {
        timeline = h.timeline;
        on = h.on;
        clips = All-exchange changed.clip_id changed IsClip t.clips h.valid v.clips;
        new = In-All _ (all_clips d.tracks) (λ x m n k. absurd (k refl));
        carries = λ P k new.
            (All-of_map P (λ x. x.clip_id) (exchange changed.clip_id changed t.clips)).0
              (subst (All P) (sym ids) ((All-of_map P (λ x. x.clip_id) t.clips).1 k));
      }

  exchange-DifferentIds : AllPairs DifferentIds (exchange changed.clip_id changed t.clips)
  exchange-DifferentIds =
      let v = All-In IsTrack h.timeline.tracks h.on in
      let iff = λ (xs : List Clip). AllPairs-of_map (λ a b. a ≢ b) (λ (x : Clip). x.clip_id) xs in
      (iff (exchange changed.clip_id changed t.clips)).0 (
        subst (AllPairs (λ a b. a ≢ b))
          (sym (clip_ids-exchange changed.clip_id changed t.clips refl)) ((iff t.clips).1 v.ids))

  pub put_clip-eq-ok :
      ClearOf changed t.clips → put_clip d t c changed ≡ ok (exchanging d t changed)
  unfolding put_clip
  put_clip-eq-ok clear =
      let v = All-In IsTrack h.timeline.tracks h.on in
      let cs = exchange changed.clip_id changed t.clips in
      let disjoint =
        (Disjoint-exchange_iff changed c t.clips (sym h.same) h.clip v.ids v.disjoint).1 clear in
      rw
        (sym h.same, (put_clips_iff None d t cs exchange-Clips).1 (exchange-DifferentIds, disjoint))
        refl

  -- What a replacement returns is the timeline with the changed clip, which is disjoint from the
  -- other clips of its track.
  pub put_clip_inv :
      (u : Update)
      → put_clip d t c changed ≡ ok u
      → (u ≡ exchanging d t changed) × ClearOf changed t.clips × IsTimeline u.timeline
  unfolding put_clip
  put_clip_inv u eq =
      let v = All-In IsTrack h.timeline.tracks h.on in
      let cs = exchange changed.clip_id changed t.clips in
      let (e, r, k) =
        >>=-eq-ok (put_clips d t (exchange c.clip_id changed t.clips))
          (λ e. ok (record { timeline = e; track_id = t.track_id; clip_id = some c.clip_id })) eq in
      let r' = subst (λ id. put_clips d t (exchange id changed t.clips) ≡ ok e) (sym h.same) r in
      let (_, _, disjoint) = put_clips_inv None d t cs exchange-Clips e r' in
      let clear =
        (Disjoint-exchange_iff changed c t.clips (sym h.same) h.clip v.ids v.disjoint).0 disjoint in
      (
        ok_inj (sym eq ∙ put_clip-eq-ok clear),
        clear,
        subst (λ (w : Update). IsTimeline w.timeline) (ok_inj k)
            (put_clips-IsTimeline None d t cs exchange-Clips e r'),
      )
