-- ===== src/Projects/Transactions/Succeeding.antt =====
-- When a commit returns (`ProjectUnitOfWork.commit`): what is given can be encoded and is accepted, something changes, and no
-- write fails.
use uv_studio.Base.{
  ℕ, zero, suc, ◌+◌, ◌≤◌, ◌≡◌, ◌≢◌, refl, sym, ap, ◌∙◌, inl, inr, Bool, true, false, List, [], ◌∷◌,
  ◌++◌, map, Option, none, some, Text, text_eq_iff, text_eq_ne, strip, ltb, length, is_empty,
  contains, contains-false_iff, All, All-map, All-of_map, All-In, AllPairs, AllPairs-append_last,
  In, Bool-cases, ok, arith,
}
use mathlib.Core.Path.{subst}
use mathlib.Core.List.{append-nil, append_assoc}
use uv_studio.Base.Sort.{sort, All-sort}
use uv_studio.Json.{Json, Fields}
use uv_studio.Projects.Transactions.Model.{
  Bytes, Documents, Change, Folder, Phase, Record, World, load_history, project_filename,
}
use uv_studio.Projects.Transactions.Journal.{
  Write, handle, write_after, with_phase, run_writes, forward_writes, execute_prepared, apply_write,
}
use uv_studio.Projects.Transactions.Commit.{
  Services, Attempt, max_snapshot_bytes, read_snapshot, strict_json_bytes, encode_documents,
  same_snapshot, add_change, collect_changes, path_before, commit_record, staged_changes, commit,
  is_empty_list,
}
use uv_studio.Projects.Transactions.Recovery.{Settled, recover-Settled}
use uv_studio.Projects.Transactions.Commits.{Keyed, DistinctKeys, collect-inv}
use uv_studio.Projects.Transactions.Encoding.{Encodes}

-- Documents other than project.json that a commit can make
pub record IsAcceptable (s : Services) (ds : List (Json × Fields)) (w : World) : Type 0 where
  pub encoded : Keyed
  pub encodes : Encodes s ds encoded
  pub differ : DistinctKeys encoded
  pub elsewhere : All (λ e. e.0 ≢ project_filename) encoded
  pub small : All (λ e. length e.1 ≤ max_snapshot_bytes) encoded
  pub was_small :
      All
        (λ e. (old : Bytes) → w.documents e.0 ≡ some old → length old ≤ max_snapshot_bytes)
        encoded
  pub valid : s.validate w.documents (map (λ e. (e.0, some e.1)) encoded) ≡ ok tt
  pub new : Text × Bytes
  pub given : In new encoded
  pub changes : (old : Bytes) → w.documents new.0 ≡ some old → s.sha256 old ≢ s.sha256 new.1

run_writes-enough :
    (n : ℕ) (xs : List Write) (w : World) → length xs ≤ n → (run_writes n xs w).1 ≡ true
unfolding run_writes
run_writes-enough n [] w h = refl
run_writes-enough zero (x ∷ xs) w h = absurd (omega arith)
run_writes-enough (suc n) (x ∷ xs) w h = run_writes-enough n xs (apply_write x w) (omega arith)

length-append_two :
    {A B : Type 0} (f : A → B) (xs : List A) (a b : B)
    → length (map f xs ++ a ∷ b ∷ []) ≡ length xs + 2
length-append_two f [] a b = refl
length-append_two f (x ∷ xs) a b = let k = length-append_two f xs a b in (omega arith)

All-front : {A : Type 0} (P : A → Type 0) (xs ys : List A) → All P (xs ++ ys) → All P xs
All-front P [] ys h = tt
All-front P (x ∷ xs) ys h = (h.0, All-front P xs ys h.1)

AllPairs-front :
    {A : Type 0} (R : A → A → Type 0) (xs ys : List A) → AllPairs R (xs ++ ys) → AllPairs R xs
AllPairs-front R [] ys h = tt
AllPairs-front R (x ∷ xs) ys h = (All-front (R x) xs ys h.0, AllPairs-front R xs ys h.1)

small_is : (n : ℕ) → n ≤ max_snapshot_bytes → ltb max_snapshot_bytes n ≡ false
small_is n h = ground arith

module _ (s : Services) where
  strict-eq-ok :
      (path : Text) (data_ : Fields) (bytes : Bytes)
      → path ≢ project_filename
      → s.dumps data_ ≡ some bytes
      → length bytes ≤ max_snapshot_bytes
      → strict_json_bytes s path data_ ≡ ok bytes
  unfolding strict_json_bytes
  strict-eq-ok path data_ bytes other dumped small =
      rw (text_eq_ne path project_filename other, dumped, small_is (length bytes) small) refl

  encode-eq-ok :
      (encoded : Keyed) (ds : List (Json × Fields)) (es : Keyed)
      → Encodes s ds es
      → DistinctKeys (encoded ++ es)
      → All (λ e. e.0 ≢ project_filename) es
      → All (λ e. length e.1 ≤ max_snapshot_bytes) es
      → encode_documents s encoded ds ≡ ok (encoded ++ es)
  unfolding encode_documents
  encode-eq-ok encoded [] [] h d o m = ap ok (sym (append-nil encoded))
  encode-eq-ok encoded [] (e ∷ es) h d o m = absurd h
  encode-eq-ok encoded (x ∷ ds) [] h d o m = absurd h
  encode-eq-ok encoded ((raw, data_) ∷ ds) ((path, bytes) ∷ es) (canonical, dumped, h) d o m =
      let moved = sym (append_assoc encoded ((path, bytes) ∷ []) es) in
      let d' = subst DistinctKeys moved d in
      let new = ((AllPairs-append_last _ encoded (path, bytes)).0 (AllPairs-front _ _ es d')).1 in
      let fresh : contains path (map (λ e. e.0) encoded) ≡ false =
        (contains-false_iff path (map (λ e. e.0) encoded)).1 (
          (All-of_map (λ t. path ≢ t) (λ e. e.0) encoded).1
            (All-map (λ x ne eq. ne (sym eq)) encoded new)) in
      rw (canonical, fresh, strict-eq-ok path data_ bytes o.0 dumped m.0)
        (encode-eq-ok (encoded ++ (path, bytes) ∷ []) ds es h d' o.1 m.1 ∙ ap ok (sym moved))

  read-eq-ok :
      (o : Option Bytes)
      → ((old : Bytes) → o ≡ some old → length old ≤ max_snapshot_bytes)
      → read_snapshot o ≡ ok o
  read-eq-ok none h = refl
  read-eq-ok (some b) h = rw (small_is (length b) (h b refl)) refl

  collect-total :
      (f : Documents) (es : Keyed)
      → All (λ e. (old : Bytes) → f e.0 ≡ some old → length old ≤ max_snapshot_bytes) es
      → (cs : List Change) × (collect_changes s f es ≡ ok cs)
  unfolding collect_changes
  collect-total f [] h = ([], refl)
  collect-total f ((path, bytes) ∷ es) h =
      let (others, e) = collect-total f es h.1 in
      (add_change s path (f path) bytes others, rw (read-eq-ok (f path) h.0, e) refl)

  collect-empty :
      (f : Documents) (es : Keyed) (cs : List Change)
      → collect_changes s f es ≡ ok cs
      → is_empty_list cs ≡ true
      → All (λ e. same_snapshot s (f e.0) e.1 ≡ true) es
  collect-empty f [] cs h empty = tt
  collect-empty f ((path, bytes) ∷ es) cs h empty =
      let (others, e, k) = collect-inv s f path bytes es cs h in
      elim (Bool-cases (same_snapshot s (f path) bytes)) [
        | inl b ↦
            let same : others ≡ cs = rw b at k in
            (
              b,
              collect-empty f es others e (subst (λ cs. is_empty_list cs ≡ true) (sym same) empty),
            )
        | inr b ↦
            let same : record { path = path; before = f path; after = some bytes } ∷ others ≡ cs =
              rw b at k in
            let no : false ≡ true = subst (λ cs. is_empty_list cs ≡ true) (sym same) empty in cc
      ]

  differs :
      (o : Option Bytes) (bytes : Bytes)
      → ((old : Bytes) → o ≡ some old → s.sha256 old ≢ s.sha256 bytes)
      → same_snapshot s o bytes ≢ true
  unfolding same_snapshot
  differs none bytes h e = cc
  differs (some old) bytes h e = h old refl ((text_eq_iff _ _).0 e)

  staged-total :
      (w : World) (ds : List (Json × Fields))
      → IsAcceptable s ds w
      → (cs : List Change) × (staged_changes s w ds ≡ ok cs)
  unfolding staged_changes
  staged-total w ds a =
      let es = a.encoded in
      let sorted = sort path_before es in
      let (cs, e) = collect-total w.documents sorted ((All-sort path_before _ es).0 a.was_small) in
      let full : is_empty_list cs ≡ false = elim (Bool-cases (is_empty_list cs)) [
        | inr full ↦ full
        | inl empty ↦
            let same =
              (All-sort path_before (λ e. same_snapshot s (w.documents e.0) e.1 ≡ true) es).1
                (collect-empty w.documents sorted cs e empty) in
            absurd (differs (w.documents a.new.0) a.new.1 a.changes (All-In _ same a.given))
      ] in
      (cs, rw (encode-eq-ok [] ds es a.encodes a.differ a.elsewhere a.small, a.valid, e, full) refl)

nonempty :
    (s : Services) (ds : List (Json × Fields)) (es : Keyed) (e : Text × Bytes)
    → Encodes s ds es
    → In e es
    → is_empty_list ds ≡ false
nonempty s [] [] e h m = elim m [ ]
nonempty s [] (x ∷ es) e h m = absurd h
nonempty s (d ∷ ds) es e h m = refl

handled-ok :
    (m : ℕ) (folder : Folder) (id : Text) (r : Record) (x : World × Bool)
    → x.1 ≡ true
    → (handle m folder id r x).0 ≡ ok tt
handled-ok m folder id r (w, true) h = refl
handled-ok m folder id r (w, false) h = cc

executed-ok :
    (folder : Folder) (id : Text) (r : Record) (w : World) (n m : ℕ)
    → length r.changes + 2 ≤ n
    → (execute_prepared true n m folder id r w).0 ≡ ok tt
unfolding execute_prepared forward_writes
executed-ok folder id r w n m h = handled-ok m folder id r _ (
    run_writes-enough n (forward_writes folder id r) _ (
      let k =
        length-append_two write_after r.changes (Write.history_index r.history_after)
          (Write.journal folder id (with_phase Phase.committed r)) in
      (omega arith)))

-- A commit on a settled journal returns, where the command has between 1 and 200 characters, the
-- documents are others than project.json, can be encoded and have different paths, neither they nor
-- what they replace is larger than a snapshot may be, they pass the validation, one of them is new
-- or changes its digest, and no write fails: the journal record is written, and after it at least
-- `enough` writes would succeed, a number that the documents alone determine.
pub commit_total :
    (s : Services) (command : Text) (ds : List (Json × Fields)) (w : World)
    → Settled w
    → is_empty (strip command) ≡ false
    → length (strip command) ≤ 200
    → IsAcceptable s ds w
    → (enough : ℕ) × ((a : Attempt)
        → a.record_written ≡ true
        → enough ≤ a.writes
        → (commit s a command ds w).0 ≡ ok tt)
unfolding commit
commit_total s command ds w settled some_text short acceptable =
    let (cs, staged) = staged-total s w ds acceptable in
    let given =
      nonempty s ds acceptable.encoded acceptable.new acceptable.encodes acceptable.given in
    let fits : ltb 200 (length (strip command)) ≡ false = (ground arith) in
    (
      length cs + 2,
      λ a written enough.
          rw (some_text, fits, given, recover-Settled w settled, staged, written)
            (executed-ok Folder.transactions a.id (commit_record a command cs (load_history w)) w
              a.writes a.handler_writes (unfold commit_record in enough)),
    )
