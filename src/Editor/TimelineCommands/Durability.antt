-- ===== src/Editor/TimelineCommands/Durability.antt =====
-- What a command of the service leaves on disk.
use uv_studio.Base.{
  strip, ◌≡◌, ◌≢◌, refl, sym, ap, ◌∙◌, ◌⊎◌, inl, inr, List, [], ◌∷◌, ◌++◌, map, some, Text, codes,
  text_eq_ne, ok, raised, Outcome-cases,
}
use mathlib.Core.Path.{subst}
use uv_studio.Json.{Json, Fields}
use uv_studio.Projects.References.{Project}
use uv_studio.Projects.Timeline.Document.{Timeline, timeline_to_dict}
use uv_studio.Projects.Timeline.Store.{load, validate}
use uv_studio.Projects.Timeline.Validity.{IsTimeline}
use uv_studio.Projects.Timeline.Reading.{load-IsTimeline}
use uv_studio.Projects.Transactions.Model.{Bytes, World, load_history, Change}
use uv_studio.Projects.Transactions.Journal.{recover}
use uv_studio.Projects.Transactions.Commit.{
  Services, Attempt, commit, commit_record, staged_changes,
}
use uv_studio.Projects.Transactions.Recovery.{Settled}
use uv_studio.Editor.TimelineCommands.Service.{
  main_path, Surroundings, Call, call, call_name, Ran, timeline_file, commit_timeline, returning,
  run_on, run,
}
use uv_studio.Projects.Transactions.Commits.{Unchanged, commit-StagedOutcome, refused}
use uv_studio.Projects.Transactions.Saving.{extended, IsCommitted-of_staged}
use uv_studio.Projects.Transactions.Steps.{Committed}
use uv_studio.Editor.TimelineCommands.Updates.{Update}
use uv_studio.Editor.TimelineCommands.Commands.{
  CommandError, unloadable, rejected, escaped, uncommitted,
}
use uv_studio.Editor.TimelineCommands.Reachability.{call-IsTimeline}
use uv_studio.Editor.TimelineCommands.Staging.{staged-main}

-- The new timeline is on disk and in the history, and no other document has changed.
pub record Saved (s : Services) (a : Attempt) (name : Text) (d : Timeline) (w u : World)
    : Type 0 where
  pub bytes : Bytes
  pub serialized : s.dumps (timeline_to_dict d) ≡ some bytes
  pub saved : u.documents main_path ≡ some bytes
  pub others : (q : Text) → q ≢ main_path → u.documents q ≡ w.documents q
  pub history :
      load_history u
      ≡ extended (load_history w) (record {
        transaction_id = a.id;
        command = strip (codes "timeline." ++ name);
        created_at = a.now;
        changed_paths = main_path ∷ [];
      })
  pub settled : Settled u

module _ (s : Services) (a : Attempt) (w : World) where
  after_commit :
      (name : Text) (d : Timeline) (u : World) (cs : List Change)
      → staged_changes s w ((Json.str main_path, timeline_to_dict d) ∷ []) ≡ ok cs
      → Committed w (commit_record a (codes "timeline." ++ name) cs (load_history w)) u
      → Saved s a name d w u
  unfolding commit_record
  after_commit name d u cs staged c =
      let (b, dumped, one) = staged-main s w (timeline_to_dict d) cs staged in
      let (made, agree, _, _) =
        subst
          (λ cs. Committed w (commit_record a (codes "timeline." ++ name) cs (load_history w)) u)
          one c in
      let (done, changed) =
        IsCommitted-of_staged s a (codes "timeline." ++ name)
          ((Json.str main_path, timeline_to_dict d) ∷ []) w u cs staged c in
      let paths : done.changed ≡ main_path ∷ [] = changed ∙ ap (map (λ c. c.path)) one in
      record {
        bytes = b;
        serialized = dumped;
        saved = made.0;
        others = λ q ne. agree q (text_eq_ne q main_path ne, tt);
        history =
            subst
              (λ (ps : List Text).
                load_history u
                ≡ extended (load_history w) (record {
                  transaction_id = a.id;
                  command = strip (codes "timeline." ++ name);
                  created_at = a.now;
                  changed_paths = ps;
                }))
              paths done.history;
        settled = done.settled;
      }

-- What a command of the service comes to: the timeline that it computes from the loaded one is
-- saved and returned, or it raises and nothing has changed.
abbrev pub ServiceOutcome : Services → Attempt → Surroundings → Call → World → Ran Update → Type 0
ServiceOutcome s a x c w (result, u) =
    ((d : Timeline) × (r : Update) × (load (timeline_file x w) ≡ ok d)
      × (call c d ≡ ok r)
      × (result ≡ ok r)
      × IsTimeline r.timeline
      × Saved s a (call_name c) r.timeline w u)
    ⊎ ((e : CommandError) × (result ≡ raised e) × Unchanged w (recover u))

module _ (s : Services) (a : Attempt) (x : Surroundings) (c : Call) (w : World) where
  commit_timeline-cases :
      (project : Project) (d : Timeline) (r : Update)
      → Settled w
      → load (timeline_file x w) ≡ ok d
      → call c d ≡ ok r
      → ServiceOutcome s a x c w
          (returning r (commit_timeline s a x project (call_name c) r.timeline w))
  unfolding commit_timeline commit
  commit_timeline-cases project d r settled loaded called =
      let v = call-IsTimeline c d r (load-IsTimeline (timeline_file x w) d loaded).0 called in
      let name = codes "timeline." ++ call_name c in
      let documents : List (Json × Fields) =
        (Json.str main_path, timeline_to_dict r.timeline) ∷ [] in
      elim (Outcome-cases (validate x.disk x.project_id project r.timeline)) [
        | inr (e, refuses) ↦
            let same : returning r (commit_timeline s a x project (call_name c) r.timeline w)
                ≡ (raised (rejected e), w) =
              rw (refuses, commit_timeline) refl in
            subst (ServiceOutcome s a x c w) (sym same) (inr (rejected e, refl, refused w settled))
        | inl (validated, accepts) ↦
            let u = (commit s a name documents w).1 in
            elim (commit-StagedOutcome s a name documents w settled) [
              | inr (e, fails, unchanged) ↦
                  let same : returning r (commit_timeline s a x project (call_name c) r.timeline w)
                      ≡ (raised (uncommitted e), u) =
                    rw (accepts, fails, commit_timeline) refl in
                  subst (ServiceOutcome s a x c w) (sym same) (inr (uncommitted e, refl, unchanged))
              | inl (done, changes) ↦
                  let (cs, staged, committed) = changes in
                  let same : returning r (commit_timeline s a x project (call_name c) r.timeline w)
                      ≡ (ok r, u) =
                    rw (accepts, done, commit_timeline) refl in
                  subst (ServiceOutcome s a x c w) (sym same) (
                    inl (
                      d,
                      r,
                      loaded,
                      called,
                      refl,
                      v,
                      after_commit s a w (call_name c) r.timeline u cs staged committed,
                    ))
            ]
      ]

  -- A command of the service on a project whose journal is settled, whatever writes fail: it
  -- returns the timeline that the command computes from the loaded one, that timeline is valid, the
  -- file of the timeline holds its serialization, the history is what was not undone, followed by
  -- the entry of this command, and no other document has changed; or it raises, and after the next
  -- recovery documents and history are what they were.
  pub run-ServiceOutcome : Settled w → ServiceOutcome s a x c w (run s a x c w)
  unfolding run commit_timeline
  run-ServiceOutcome settled = elim (Outcome-cases x.project) [
    | inr (e, missing) ↦
        let same : run s a x c w ≡ (raised (unloadable e), w) = rw (missing, run) refl in
        subst (ServiceOutcome s a x c w) (sym same) (inr (unloadable e, refl, refused w settled))
    | inl (project, present) ↦ elim (Outcome-cases (load (timeline_file x w))) [
      | inr (e, fails) ↦
          let same : run s a x c w ≡ (raised (escaped e), w) = rw (present, fails, run) refl in
          subst (ServiceOutcome s a x c w) (sym same) (inr (escaped e, refl, refused w settled))
      | inl (d, loaded) ↦ elim (Outcome-cases (call c d)) [
        | inr (e, fails) ↦
            let same : run s a x c w ≡ (raised e, w) =
              rw (present, loaded, fails, run, run_on) refl in
            subst (ServiceOutcome s a x c w) (sym same) (inr (e, refl, refused w settled))
        | inl (r, called) ↦
            let same : run s a x c w
                ≡ returning r (commit_timeline s a x project (call_name c) r.timeline w) =
              rw (present, loaded, called, run, run_on) refl in
            subst (ServiceOutcome s a x c w) (sym same)
              (commit_timeline-cases project d r settled loaded called)
      ]
    ]
  ]
