-- ===== src/Projects/Transactions/Commits.antt =====
-- What a commit does to a project whose journal is settled.
use uv_studio.Base.{
  ◌≡◌, ◌≢◌, refl, sym, ap, ◌∙◌, ◌⊎◌, inl, inr, ◌||◌, List, [], ◌∷◌, ◌++◌, map, Option, none, some,
  Text, text_eq_ne, contains, contains-false_iff, ltb, length, is_empty, strip, All, AllPairs,
  All-map, AllPairs-append_last, All-of_map, Bool-cases, ok, raised, ◌>>=◌, raise_if,
  raise_if-eq-ok, Outcome-cases, >>=-eq-ok, ok_inj,
}
use mathlib.Core.Path.{subst}
use uv_studio.Base.Sort.{sort, AllPairs-sort}
use uv_studio.Json.{Json, Fields}
use uv_studio.Projects.Transactions.Model.{
  Bytes, Documents, TransactionError, bad_command, no_documents, no_changes, Change, Folder, World,
  load_history, canonical_document_path, duplicate_path,
}
use uv_studio.Projects.Transactions.Journal.{Executed, recover}
use uv_studio.Projects.Transactions.Commit.{
  Services, Attempt, read_snapshot, strict_json_bytes, encode_documents, same_snapshot, add_change,
  collect_changes, path_before, commit_record, staged_changes, commit_changes, commit,
  is_empty_list,
}
use uv_studio.Projects.Transactions.Restore.{Recorded, Distinct, IsOff}
use uv_studio.Projects.Transactions.Recovery.{Settled, recover-Settled}
use uv_studio.Projects.Transactions.Steps.{Committed}
use uv_studio.Projects.Transactions.Atomicity.{IsReady, execute_prepared-IsAtomic}

pub read_snapshot-eq : (o o' : Option Bytes) → read_snapshot o ≡ ok o' → o ≡ o'
read_snapshot-eq none o' h = ok_inj h
read_snapshot-eq (some b) o' h =
    let (u, e, k) = >>=-eq-ok (raise_if _ _) (λ _. ok (some b)) h in ok_inj k

abbrev pub Keyed : Type 0
Keyed = List (Text × Bytes)

abbrev pub DistinctKeys : Keyed → Type 0
DistinctKeys es = AllPairs (λ a b. a.0 ≢ b.0) es

module _ (s : Services) where
  -- What holds of the two parts of a change and of the rest holds of the collected list.
  add_change-All :
      (P : Change → Type 0) (path : Text) (before : Option Bytes) (bytes : Bytes)
      (others : List Change)
      → P (record { path = path; before = before; after = some bytes })
      → All P others
      → All P (add_change s path before bytes others)
  add_change-All P path before bytes others p h = elim (Bool-cases (same_snapshot s before bytes)) [
    | inl e ↦ rw e h
    | inr e ↦ rw e (p, h)
  ]

  pub collect-inv :
      (f : Documents) (path : Text) (bytes : Bytes) (rest : Keyed) (cs : List Change)
      → collect_changes s f ((path, bytes) ∷ rest) ≡ ok cs
      → (others : List Change) × (collect_changes s f rest ≡ ok others)
        × (add_change s path (f path) bytes others ≡ cs)
  unfolding collect_changes
  collect-inv f path bytes rest cs h =
      let (before, e, k) =
        >>=-eq-ok (read_snapshot (f path))
          (λ b. collect_changes s f rest >>= λ others. ok (add_change s path b bytes others)) h in
      let (others, e', k') =
        >>=-eq-ok (collect_changes s f rest) (λ others. ok (add_change s path before bytes others))
          k in
      (others, e', ap (λ b. add_change s path b bytes others) (read_snapshot-eq _ _ e) ∙ ok_inj k')

  pub collect-nil : (f : Documents) (cs : List Change) → collect_changes s f [] ≡ ok cs → [] ≡ cs
  unfolding collect_changes
  collect-nil f cs h = ok_inj h

  collect-Recorded :
      (f : Documents) (es : Keyed) (cs : List Change)
      → collect_changes s f es ≡ ok cs
      → Recorded f cs
  collect-Recorded f [] cs h = subst (Recorded f) (collect-nil f cs h) tt
  collect-Recorded f ((path, bytes) ∷ es) cs h =
      let (others, e, k) = collect-inv f path bytes es cs h in
      subst (Recorded f) k
        (add_change-All _ path (f path) bytes others refl (collect-Recorded f es others e))

  pub collect-IsOff :
      (f : Documents) (p : Text) (es : Keyed) (cs : List Change)
      → collect_changes s f es ≡ ok cs
      → All (λ b. p ≢ b.0) es
      → IsOff cs p
  collect-IsOff f p [] cs h d = subst (λ cs. IsOff cs p) (collect-nil f cs h) tt
  collect-IsOff f p ((path, bytes) ∷ es) cs h d =
      let (others, e, k) = collect-inv f path bytes es cs h in
      subst (λ cs. IsOff cs p) k
        (add_change-All _ path (f path) bytes others (text_eq_ne p path d.0)
          (collect-IsOff f p es others e d.1))

  collect-Distinct :
      (f : Documents) (es : Keyed) (cs : List Change)
      → collect_changes s f es ≡ ok cs
      → DistinctKeys es
      → Distinct cs
  collect-Distinct f [] cs h d = subst Distinct (collect-nil f cs h) tt
  collect-Distinct f ((path, bytes) ∷ es) cs h d =
      let (others, e, k) = collect-inv f path bytes es cs h in
      subst Distinct k (elim (Bool-cases (same_snapshot s (f path) bytes)) [
        | inl b ↦ rw b (collect-Distinct f es others e d.1)
        | inr b ↦ rw b (collect-IsOff f path es others e d.0, collect-Distinct f es others e d.1)
      ])

  pub encode-DistinctKeys :
      (encoded : Keyed) (ds : List (Json × Fields)) (es : Keyed)
      → DistinctKeys encoded
      → encode_documents s encoded ds ≡ ok es
      → DistinctKeys es
  unfolding encode_documents
  encode-DistinctKeys encoded [] es d h = subst DistinctKeys (ok_inj h) d
  encode-DistinctKeys encoded ((raw, data_) ∷ ds) es d h =
      let (path, e, k) = >>=-eq-ok (canonical_document_path raw) _ h in
      let (u, e1, k1) =
        >>=-eq-ok (raise_if (contains path (map (λ e. e.0) encoded)) duplicate_path) _ k in
      let (bytes, e2, k2) = >>=-eq-ok (strict_json_bytes s path data_) _ k1 in
      encode-DistinctKeys (encoded ++ (path, bytes) ∷ []) ds es
        ((AllPairs-append_last _ encoded (path, bytes)).1 (
          d,
          All-map (λ x ne eq. ne (sym eq)) encoded
              ((All-of_map (λ t. path ≢ t) (λ e. e.0) encoded).0
                ((contains-false_iff path (map (λ e. e.0) encoded)).0 (raise_if-eq-ok _ _ e1))),
        ))
        k2

  -- The changes of a commit record what is there, and name different documents.
  pub staged_changes-inv :
      (w : World) (ds : List (Json × Fields)) (cs : List Change)
      → staged_changes s w ds ≡ ok cs
      → Recorded w.documents cs × Distinct cs
  unfolding staged_changes
  staged_changes-inv w ds cs h =
      let (es, e, k) = >>=-eq-ok (encode_documents s [] ds) _ h in
      let (u, e1, k1) = >>=-eq-ok (s.validate w.documents (map (λ e. (e.0, some e.1)) es)) _ k in
      let (cs', e2, k2) = >>=-eq-ok (collect_changes s w.documents (sort path_before es)) _ k1 in
      let (v, e3, k3) = >>=-eq-ok (raise_if (is_empty_list cs') no_changes) _ k2 in
      subst (λ cs. Recorded w.documents cs × Distinct cs) (ok_inj k3)
        (
          collect-Recorded w.documents _ cs' e2,
          collect-Distinct w.documents _ cs' e2 (
              (AllPairs-sort path_before (λ a b. a.0 ≢ b.0) (λ a b ne eq. ne (sym eq)) es).0
                (encode-DistinctKeys [] ds es tt e)),
        )

-- The documents and the history are those of `w`, and the journal is settled.
abbrev pub Unchanged : World → World → Type 0
Unchanged w u =
    ((q : Text) → u.documents q ≡ w.documents q) × (load_history u ≡ load_history w) × Settled u

-- What a commit may come to: all of the staged changes, or nothing
abbrev pub StagedOutcome :
    Services → Attempt → Text → List (Json × Fields) → World → Executed → Type 0
StagedOutcome s a command ds w (result, u) =
    ((result ≡ ok tt)
      × ((cs : List Change) × (staged_changes s w ds ≡ ok cs)
          × Committed w (commit_record a command cs (load_history w)) u))
    ⊎ ((e : TransactionError) × (result ≡ raised e) × Unchanged w (recover u))

pub refused : (w : World) → Settled w → Unchanged w (recover w)
refused w h = rw (recover-Settled w h) ((λ q. refl), refl, h)

module _ (s : Services) (a : Attempt) (command : Text) (ds : List (Json × Fields)) (w : World) where
  commit_record-IsReady :
      (cs : List Change)
      → Settled w
      → staged_changes s w ds ≡ ok cs
      → IsReady w (commit_record a command cs (load_history w))
  unfolding commit_record
  commit_record-IsReady cs h eq =
      let (recorded, distinct) = staged_changes-inv s w ds cs eq in
      (h, refl, recorded, distinct, refl)

  history_before-commit_record :
      (cs : List Change)
      → (commit_record a command cs (load_history w)).history_before ≡ load_history w
  unfolding commit_record
  history_before-commit_record cs = refl

  staged-StagedOutcome :
      Settled w
      → StagedOutcome s a command ds w (commit_changes s a command w (staged_changes s w ds))
  staged-StagedOutcome h = elim (Outcome-cases (staged_changes s w ds)) [
    | inr (e, eq) ↦ rw eq (inr (e, refl, refused w h))
    | inl (cs, eq) ↦
        let r = commit_record a command cs (load_history w) in
        rw eq
          (elim (execute_prepared-IsAtomic Folder.transactions a.id r w a.record_written a.writes
            a.handler_writes (commit_record-IsReady cs h eq)) [
              | inl (done, c) ↦ inl (done, (cs, refl, c))
              | inr (e, failed, b) ↦
                  inr (e, failed, (b.0, b.1 ∙ history_before-commit_record cs, b.2))
            ])
  ]

  -- A commit on a settled journal is all or nothing, whatever writes fail: it returns, every staged
  -- change is made, no other document changes, and the history is the retained entries with the
  -- new one; or it raises, and after the recovery of the next start every document and the history
  -- are what they were. Either way no record is left to recover.
  pub commit-StagedOutcome : Settled w → StagedOutcome s a command ds w (commit s a command ds w)
  unfolding commit
  commit-StagedOutcome h =
      elim (Bool-cases (is_empty (strip command) || ltb 200 (length (strip command)))) [
        | inl e ↦ rw e (inr (bad_command, refl, refused w h))
        | inr e ↦ elim (Bool-cases (is_empty_list ds)) [
          | inl e' ↦ rw (e, e') (inr (no_documents, refl, refused w h))
          | inr e' ↦ rw (e, e', recover-Settled w h) (staged-StagedOutcome h)
        ]
      ]
