-- ===== src/Projects/Transactions/Cursors.antt =====
-- What an undo or a redo does to a project whose journal is settled.
use uv_studio.Base.{
  ℕ, ◌≡◌, refl, sym, ap, ◌∙◌, ◌⊎◌, inl, inr, true, not, List, [], ◌∷◌, map, Option, none, some,
  Text, ◌==◌, text_eq_iff, All, All-of_map, AllPairs-of_map, Bool-cases, ok, raised, raise_if,
  raise_if-eq-ok, raise_unless_inv, Outcome-cases, >>=-eq-ok, ok_inj, arith,
}
use mathlib.Core.Path.{subst}
use uv_studio.Base.Dict.{Dict, lookup}
use uv_studio.Projects.Transactions.Model.{
  Bytes, Documents, TransactionError, conflict, no_changes, not_committed, project_removed, Entry,
  Change, Phase, Record, Folder, World, load_history,
}
use uv_studio.Projects.Transactions.Journal.{Executed, recover}
use uv_studio.Projects.Transactions.Commit.{Services, Attempt, read_snapshot, is_empty_list}
use uv_studio.Projects.Transactions.Cursor.{
  Direction, expected, replacement, target_entry, same_content, operation_changes, removes_project,
  is_committed, required_record, cursor_record, authorize, staged_record, execute_staged,
  move_cursor,
}
use uv_studio.Projects.Transactions.Restore.{Distinct, IsOff}
use uv_studio.Projects.Transactions.Recovery.{Settled, recover-Settled}
use uv_studio.Projects.Transactions.Atomicity.{IsReady, execute_prepared-IsAtomic}
use uv_studio.Projects.Transactions.Commits.{read_snapshot-eq, Unchanged, refused}

same_content-eq : (o o' : Option Bytes) → same_content o o' ≡ true → o ≡ o'
unfolding same_content
same_content-eq none none h = refl
same_content-eq none (some b) h = absurd (ground arith)
same_content-eq (some a) none h = absurd (ground arith)
same_content-eq (some a) (some b) h = ap some ((text_eq_iff a b).0 h)

-- A recorded change, as the operation in this direction makes it
abbrev pub turned : Direction → Change → Change
turned d c = record { path = c.path; before = expected d c; after = replacement d c }

-- The operation's changes are the recorded ones turned, and the documents are as expected.
operation_changes-inv :
    (d : Direction) (f : Documents) (rs cs : List Change)
    → operation_changes d f rs ≡ ok cs
    → All (λ c. f c.path ≡ expected d c) rs × (map (turned d) rs ≡ cs)
unfolding operation_changes
operation_changes-inv d f [] cs h = (tt, ok_inj h)
operation_changes-inv d f (r ∷ rs) cs h =
    let (current, e, k) = >>=-eq-ok (read_snapshot (f r.path)) _ h in
    let (u, e1, k1) =
      >>=-eq-ok (raise_if (not (same_content current (expected d r))) (conflict r.path)) _ k in
    let (rest, e2, k2) = >>=-eq-ok (operation_changes d f rs) _ k1 in
    let same : current ≡ expected d r =
      same_content-eq current (expected d r) (ground (arith, raise_if-eq-ok _ _ e1)) in
    let (held, turned_rest) = operation_changes-inv d f rs rest e2 in
    (
      (read_snapshot-eq _ _ e ∙ same, held),
      ap
            (λ (o : Option Bytes).
              record { path = r.path; before = o; after = replacement d r } ∷ map (turned d) rs)
            (sym same)
          ∙ ap (λ t. record { path = r.path; before = current; after = replacement d r } ∷ t)
              turned_rest
          ∙ ok_inj k2,
    )

required_record-inv : (o : Option Record) (r : Record) → required_record o ≡ ok r → o ≡ some r
required_record-inv none r h = cc
required_record-inv (some r') r h = ap some (ok_inj h)

is_committed-inv : (p : Phase) → is_committed p ≡ true → p ≡ Phase.committed
is_committed-inv Phase.committed h = refl
is_committed-inv Phase.prepared h = cc
is_committed-inv Phase.rolled_back h = cc

-- The recorded changes of the transactions name different documents.
abbrev pub IsJournal : World → Type 0
IsJournal w = All (λ e. Distinct (e.1).changes) w.transactions

some_inj {ℓ} : {A : Type ℓ} {a b : A} (p : ◌≡◌ {A = Option A} (some a) (some b)) → a ≡ b
some_inj p = cc

lookup-Distinct :
    (id : Text) (r : Record) (d : Dict Record)
    → All (λ e. Distinct (e.1).changes) d
    → lookup id d ≡ some r
    → Distinct r.changes
unfolding lookup
lookup-Distinct id r [] h e = cc
lookup-Distinct id r ((k, v) ∷ d) h e = elim (Bool-cases (id == k)) [
  | inl b ↦ subst (λ x. Distinct x.changes) (some_inj (rw b at e)) h.0
  | inr b ↦ lookup-Distinct id r d h.1 (rw b at e)
]

-- What an undo or a redo has found out when it starts to write
abbrev pub Target : Direction → World → Entry → ℕ → Record → Type 0
Target d w entry cursor r =
    (target_entry d (load_history w) ≡ ok (entry, cursor))
    × (lookup entry.transaction_id w.transactions ≡ some r)
    × (r.phase ≡ Phase.committed)
    × All (λ c. w.documents c.path ≡ expected d c) r.changes

-- The operation's whole effect, or none
abbrev pub TurnedOutcome : Direction → World → Executed → Type 0
TurnedOutcome d w (result, u) =
    ((result ≡ ok tt)
      × ((entry : Entry) × (cursor : ℕ) × (r : Record) × Target d w entry cursor r
          × All (λ c. u.documents c.path ≡ replacement d c) r.changes
          × ((q : Text) → IsOff r.changes q → u.documents q ≡ w.documents q)
          × (load_history u ≡ record { entries = (load_history w).entries; cursor = cursor })
          × Settled u))
    ⊎ ((e : TransactionError) × (result ≡ raised e) × Unchanged w (recover u))

module _ (s : Services) (d : Direction) (a : Attempt) (w : World) where
  staged_record-inv :
      (x : Record)
      → staged_record s d a w ≡ ok x
      → (entry : Entry) × (cursor : ℕ) × (r : Record) × Target d w entry cursor r
        × (cursor_record d a entry cursor (map (turned d) r.changes) (load_history w) ≡ x)
  unfolding staged_record
  staged_record-inv x h =
      let (target, e, k) = >>=-eq-ok (target_entry d (load_history w)) _ h in
      let (r, e1, k1) =
        >>=-eq-ok (required_record (lookup (target.0).transaction_id w.transactions)) _ k in
      let (_, e2, k2) = >>=-eq-ok (raise_if (not (is_committed r.phase)) not_committed) _ k1 in
      let (_, e3, k3) = >>=-eq-ok (raise_if (is_empty_list r.changes) no_changes) _ k2 in
      let (cs, e4, k4) = >>=-eq-ok (operation_changes d w.documents r.changes) _ k3 in
      let (_, e5, k5) = >>=-eq-ok (raise_if (removes_project cs) project_removed) _ k4 in
      let (_, e6, k6) = >>=-eq-ok (s.validate w.documents (map (λ c. (c.path, c.after)) cs)) _ k5 in
      let (_, e7, k7) =
        >>=-eq-ok (authorize s d w.documents (map (λ c. (c.path, c.after)) cs)) _ k6 in
      let (held, same) = operation_changes-inv d w.documents r.changes cs e4 in
      (
        target.0,
        target.1,
        r,
        (
          e,
          required_record-inv _ r e1,
          is_committed-inv r.phase (raise_unless_inv _ not_committed e2),
          held,
        ),
        ap (λ cs. cursor_record d a target.0 target.1 cs (load_history w)) same ∙ ok_inj k7,
      )

  cursor_record-IsReady :
      (entry : Entry) (cursor : ℕ) (r : Record)
      → Settled w
      → IsJournal w
      → Target d w entry cursor r
      → IsReady w (cursor_record d a entry cursor (map (turned d) r.changes) (load_history w))
  unfolding cursor_record
  cursor_record-IsReady entry cursor r h j t = (
    h,
    refl,
    (All-of_map _ (turned d) r.changes).1 t.3,
    (AllPairs-of_map _ (turned d) r.changes).1 (lookup-Distinct _ r w.transactions j t.1),
    refl,
  )

  staged-TurnedOutcome :
      Settled w → IsJournal w → TurnedOutcome d w (execute_staged a w (staged_record s d a w))
  unfolding cursor_record
  staged-TurnedOutcome h j = elim (Outcome-cases (staged_record s d a w)) [
    | inr (e, eq) ↦ rw eq (inr (e, refl, refused w h))
    | inl (x, eq) ↦
        let (entry, cursor, r, t, same) = staged_record-inv x eq in
        let y = cursor_record d a entry cursor (map (turned d) r.changes) (load_history w) in
        rw (eq, sym same)
          (elim (execute_prepared-IsAtomic Folder.operations a.id y w a.record_written a.writes
            a.handler_writes (cursor_record-IsReady entry cursor r h j t)) [
              | inl (done, c) ↦ inl (
                done,
                (
                  entry,
                  cursor,
                  r,
                  t,
                  (All-of_map _ (turned d) r.changes).0 c.0,
                  (λ q off. c.1 q ((All-of_map _ (turned d) r.changes).1 off)),
                  c.2,
                  c.3,
                ),
              )
              | inr (e, failed, b) ↦ inr (e, failed, b)
            ])
  ]

  pub move_cursor-TurnedOutcome : Settled w → IsJournal w → TurnedOutcome d w (move_cursor s d a w)
  unfolding move_cursor
  move_cursor-TurnedOutcome h j = rw (recover-Settled w h) (staged-TurnedOutcome h j)
