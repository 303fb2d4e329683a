-- ===== src/Projects/Transactions/Saving.antt =====
-- What a commit that returns has left on disk, document by document.
use uv_studio.Base.{
  ◌+◌, ◌≡◌, ◌≢◌, refl, sym, ◌∙◌, ◌⊎◌, inl, inr, List, [], ◌∷◌, ◌++◌, map, some, Text, text_eq_ne,
  strip, take, length, All, All-map, All-of_map, ok, raised, >>=-eq-ok, raise_if,
}
use mathlib.Core.Path.{subst}
use uv_studio.Base.Sort.{sort, All-sort, AllPairs-sort}
use uv_studio.Json.{Json, Fields}
use uv_studio.Projects.Transactions.Model.{
  Documents, TransactionError, no_changes, Change, Entry, History, World, load_history,
}
use uv_studio.Projects.Transactions.Journal.{Executed, recover}
use uv_studio.Projects.Transactions.Commit.{
  Services, Attempt, encode_documents, collect_changes, path_before, committed_history,
  commit_record, staged_changes, commit, is_empty_list,
}
use uv_studio.Projects.Transactions.Restore.{Recorded}
use uv_studio.Projects.Transactions.Recovery.{Settled}
use uv_studio.Projects.Transactions.Steps.{Committed}
use uv_studio.Projects.Transactions.Commits.{
  Keyed, Unchanged, encode-DistinctKeys, commit-StagedOutcome, staged_changes-inv,
}
use uv_studio.Projects.Transactions.Encoding.{
  Encodes, Holds, encode-Encodes, collect-Collected, collect-Differ, Holds-of_Collected,
}

-- The history once a commit is made: what was undone is dropped, and the new entry is the last.
abbrev pub extended : History → Entry → History
extended h e = record {
  entries = take h.cursor h.entries ++ e ∷ [];
  cursor = length (take h.cursor h.entries) + 1;
}

-- What a commit has made of the documents `ds` when it returns.
pub record IsCommitted (s : Services) (a : Attempt) (command : Text) (ds : List (Json × Fields))
    (w u : World) : Type 0 where
  pub encoded : Keyed
  pub encodes : Encodes s ds encoded
  pub holds : All (λ e. Holds s w.documents u.documents e.0 e.1) encoded
  pub changed : List Text
  pub differs : All (λ p. u.documents p ≢ w.documents p) changed
  pub others : (q : Text) → All (λ p. q ≢ p) changed → u.documents q ≡ w.documents q
  pub history :
      load_history u
      ≡ extended (load_history w) (record {
        transaction_id = a.id;
        command = strip command;
        created_at = a.now;
        changed_paths = changed;
      })
  pub settled : Settled u

differ_after :
    (f g : Documents) (cs : List Change)
    → Recorded f cs
    → All (λ c. g c.path ≡ c.after) cs
    → All (λ c. c.before ≢ c.after) cs
    → All (λ c. g c.path ≢ f c.path) cs
differ_after f g [] r m d = tt
differ_after f g (c ∷ cs) r m d =
    ((λ eq. d.0 (sym r.0 ∙ sym eq ∙ m.0)), differ_after f g cs r.1 m.1 d.1)

module _ (s : Services) (a : Attempt) (command : Text) (ds : List (Json × Fields))
    (w u : World) where
  pub IsCommitted-of_staged :
      (cs : List Change)
      → staged_changes s w ds ≡ ok cs
      → Committed w (commit_record a command cs (load_history w)) u
      → (c : IsCommitted s a command ds w u) × (c.changed ≡ map (λ c. c.path) cs)
  unfolding staged_changes commit_record committed_history
  IsCommitted-of_staged cs h (made, agree, history, settled) =
      let (es, e, k) = >>=-eq-ok (encode_documents s [] ds) _ h in
      let (_, _, k1) = >>=-eq-ok (s.validate w.documents (map (λ e. (e.0, some e.1)) es)) _ k in
      let (cs', e2, k2) = >>=-eq-ok (collect_changes s w.documents (sort path_before es)) _ k1 in
      let (_, _, k3) = >>=-eq-ok (raise_if (is_empty_list cs') no_changes) _ k2 in
      let collected = e2 ∙ k3 in
      let (added, same, encodes) = encode-Encodes s [] ds es e in
      let distinct =
        (AllPairs-sort path_before (λ a b. a.0 ≢ b.0) (λ a b ne eq. ne (sym eq)) es).0
          (encode-DistinctKeys s [] ds es tt e) in
      let holds =
        All-map (λ x. Holds-of_Collected s w.documents u.documents cs x agree) _
          (collect-Collected s w.documents u.documents (sort path_before es) cs collected distinct
            made) in
      (
        record {
          encoded = es;
          encodes = subst (Encodes s ds) (sym same) encodes;
          holds = (All-sort path_before (λ e. Holds s w.documents u.documents e.0 e.1) es).1 holds;
          changed = map (λ c. c.path) cs;
          differs = (All-of_map (λ p. u.documents p ≢ w.documents p) (λ c. c.path) cs).1 (
              differ_after w.documents u.documents cs (staged_changes-inv s w ds cs h).0 made
                (collect-Differ s w.documents _ cs collected));
          others = λ q off. agree q (
              All-map (λ c ne. text_eq_ne q c.path ne) cs
                ((All-of_map (λ p. q ≢ p) (λ c. c.path) cs).0 off));
          history = history;
          settled = settled;
        },
        refl,
      )

-- A commit made all that it was given, or nothing.
abbrev pub CommitOutcome :
    Services → Attempt → Text → List (Json × Fields) → World → Executed → Type 0
CommitOutcome s a command ds w (result, u) =
    ((result ≡ ok tt) × IsCommitted s a command ds w u)
    ⊎ ((e : TransactionError) × (result ≡ raised e) × Unchanged w (recover u))

-- A commit on a settled journal is all or nothing, whatever writes fail. It returns, and then each
-- of the given documents is on disk as it was serialized, unless the document there already had the
-- same digest and is kept; every document that is named in the new entry of the history differs
-- from what it was, and every other document is as it was; and the history is what was not undone,
-- followed by the new entry. Or it raises, and after the recovery of the next start every document
-- and the history are what they were. Either way no record is left to recover.
pub commit-CommitOutcome :
    (s : Services) (a : Attempt) (command : Text) (ds : List (Json × Fields)) (w : World)
    → Settled w
    → CommitOutcome s a command ds w (commit s a command ds w)
commit-CommitOutcome s a command ds w settled =
    elim (commit-StagedOutcome s a command ds w settled) [
      | inl (done, (cs, staged, c)) ↦
          inl (done, (IsCommitted-of_staged s a command ds w _ cs staged c).0)
      | inr failed ↦ inr failed
    ]
