-- ===== src/Projects/Transactions/Encoding.antt =====
-- What a commit encodes, and what becomes of each document that it is given.
use uv_studio.Base.{
  ◌≡◌, ◌≢◌, sym, ap, ◌∙◌, ◌⊎◌, inl, inr, true, false, List, [], ◌∷◌, ◌++◌, map, Option, none, some,
  Text, text_eq_iff, text_eq_ne, Option-cases, contains, All, Bool-cases, ok, ok_inj, >>=-eq-ok,
  raise_if,
}
use mathlib.Core.Path.{subst}
use mathlib.Core.List.{append-nil, append_assoc}
use uv_studio.Json.{Json, Fields}
use uv_studio.Projects.Transactions.Model.{
  Bytes, Documents, duplicate_path, Change, canonical_document_path,
}
use uv_studio.Projects.Transactions.Commit.{
  Services, strict_json_bytes, bounded_bytes, encode_documents, same_snapshot, collect_changes,
}
use uv_studio.Projects.Transactions.Restore.{IsOff, Agree}
use uv_studio.Projects.Transactions.Commits.{
  Keyed, DistinctKeys, collect-inv, collect-nil, collect-IsOff,
}

-- Each of the documents that are given, with its canonical path and its serialization
abbrev pub Encodes : Services → List (Json × Fields) → Keyed → Type 0
Encodes s [] [] = Unit {0}
Encodes s ((raw, data_) ∷ ds) ((path, bytes) ∷ es) =
    (canonical_document_path raw ≡ ok path) × (s.dumps data_ ≡ some bytes) × Encodes s ds es
Encodes s _ _ = ⊥

-- A document holds the new content, or it already held content of the same digest and keeps it.
abbrev pub Holds : Services → Documents → Documents → Text → Bytes → Type 0
Holds s before after path bytes =
    (after path ≡ some bytes)
    ⊎ ((old : Bytes) × (before path ≡ some old)
        × (after path ≡ some old)
        × (s.sha256 old ≡ s.sha256 bytes))

bounded-some : (o : Option Bytes) (b : Bytes) → bounded_bytes o ≡ ok b → o ≡ some b
bounded-some none b h = cc
bounded-some (some x) b h =
    let (_, _, k) = >>=-eq-ok (raise_if _ _) (λ _. ok x) h in ap some (ok_inj k)

module _ (s : Services) where
  pub strict-dumps :
      (path : Text) (f : Fields) (b : Bytes)
      → strict_json_bytes s path f ≡ ok b
      → s.dumps f ≡ some b
  unfolding strict_json_bytes
  strict-dumps path f b h =
      let (_, _, k) = >>=-eq-ok (raise_if _ _) (λ _. bounded_bytes (s.dumps f)) h in
      bounded-some (s.dumps f) b k

  -- What `encode_documents` appends
  pub encode-Encodes :
      (encoded : Keyed) (ds : List (Json × Fields)) (es : Keyed)
      → encode_documents s encoded ds ≡ ok es
      → (added : Keyed) × (es ≡ encoded ++ added) × Encodes s ds added
  unfolding encode_documents
  encode-Encodes encoded [] es h = ([], sym (ok_inj h) ∙ sym (append-nil encoded), tt)
  encode-Encodes encoded ((raw, data_) ∷ ds) es h =
      let (path, e, k) = >>=-eq-ok (canonical_document_path raw) _ h in
      let (u, e1, k1) =
        >>=-eq-ok (raise_if (contains path (map (λ e. e.0) encoded)) duplicate_path) _ k in
      let (bytes, e2, k2) = >>=-eq-ok (strict_json_bytes s path data_) _ k1 in
      let (added, same, rest) = encode-Encodes (encoded ++ (path, bytes) ∷ []) ds es k2 in
      (
        (path, bytes) ∷ added,
        same ∙ append_assoc encoded ((path, bytes) ∷ []) added,
        (e, strict-dumps path data_ bytes e2, rest),
      )

  -- What becomes of each document, where `g` has what the changes say
  abbrev pub Collected : Documents → Documents → List Change → Text × Bytes → Type 0
  Collected f g cs e = (g e.0 ≡ some e.1) ⊎ ((same_snapshot s (f e.0) e.1 ≡ true) × IsOff cs e.0)

  pub collect-Collected :
      (f g : Documents) (es : Keyed) (cs : List Change)
      → collect_changes s f es ≡ ok cs
      → DistinctKeys es
      → All (λ c. g c.path ≡ c.after) cs
      → All (Collected f g cs) es
  collect-Collected f g [] cs h d made = tt
  collect-Collected f g ((path, bytes) ∷ es) cs h d made =
      let (others, e, k) = collect-inv s f path bytes es cs h in
      elim (Bool-cases (same_snapshot s (f path) bytes)) [
        | inl b ↦
            let same : others ≡ cs = rw b at k in
            let held = subst (All (λ c. g c.path ≡ c.after)) (sym same) made in
            subst (λ cs. All (Collected f g cs) ((path, bytes) ∷ es)) same
              (
                inr (b, collect-IsOff s f path es others e d.0),
                collect-Collected f g es others e d.1 held,
              )
        | inr b ↦
            let c : Change = record { path = path; before = f path; after = some bytes } in
            let same : c ∷ others ≡ cs = rw b at k in
            let held = subst (All (λ c. g c.path ≡ c.after)) (sym same) made in
            subst (λ cs. All (Collected f g cs) ((path, bytes) ∷ es)) same
              (inl held.0, further c others es d.0 (collect-Collected f g es others e d.1 held.1))
      ]
    where
      further :
          (c : Change) (others : List Change) (es : Keyed)
          → All (λ e. c.path ≢ e.0) es
          → All (Collected f g others) es
          → All (Collected f g (c ∷ others)) es
      further c others [] d h = tt
      further c others (e ∷ es) d (inl kept, h) = (inl kept, further c others es d.1 h)
      further c others (e ∷ es) d (inr (same, off), h) =
          (inr (same, (text_eq_ne e.0 c.path (λ eq. d.0 (sym eq)), off)), further c others es d.1 h)

  -- Every change that is collected changes its document.
  pub collect-Differ :
      (f : Documents) (es : Keyed) (cs : List Change)
      → collect_changes s f es ≡ ok cs
      → All (λ c. c.before ≢ c.after) cs
  unfolding same_snapshot
  collect-Differ f [] cs h = subst (All (λ c. c.before ≢ c.after)) (collect-nil s f cs h) tt
  collect-Differ f ((path, bytes) ∷ es) cs h =
      let (others, e, k) = collect-inv s f path bytes es cs h in
      subst (All (λ c. c.before ≢ c.after)) k (elim (Bool-cases (same_snapshot s (f path) bytes)) [
        | inl b ↦ rw b (collect-Differ f es others e)
        | inr b ↦ rw b (different (f path) bytes b, collect-Differ f es others e)
      ])
    where
      different :
          (o : Option Bytes) (bytes : Bytes) → same_snapshot s o bytes ≡ false → o ≢ some bytes
      different none bytes h eq = cc
      different (some b) bytes h eq =
          let same : s.sha256 b ≡ s.sha256 bytes = ap s.sha256 cc in
          let yes = (text_eq_iff (s.sha256 b) (s.sha256 bytes)).1 same in cc

  pub Holds-of_Collected :
      (f g : Documents) (cs : List Change) (e : Text × Bytes)
      → Agree f cs g
      → Collected f g cs e
      → Holds s f g e.0 e.1
  unfolding same_snapshot
  Holds-of_Collected f g cs e agree (inl made) = inl made
  Holds-of_Collected f g cs e agree (inr (same, off)) = elim (Option-cases (f e.0)) [
    | inl absent ↦ let k : false ≡ true = rw absent at same in cc
    | inr (old, there) ↦
        let k = rw there at same in inr (old, there, agree e.0 off ∙ there, (text_eq_iff _ _).0 k)
  ]
