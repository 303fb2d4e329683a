-- ===== src/Editor/TimelineCommands/Staging.antt =====
-- What is staged when a command of the service is committed.
use uv_studio.Base.{
  ◌≡◌, refl, sym, ap, ◌∙◌, inl, inr, true, false, List, [], ◌∷◌, map, some, ◌==◌, contains, ok,
  raise_if, raise_if-eq-ok, >>=-eq-ok, ok_inj, Bool-cases, strip, is_space,
}
use mathlib.Core.Path.{subst}
use uv_studio.Base.Sort.{sort, insert_sorted}
use uv_studio.Json.{Json, Fields}
use uv_studio.Projects.Paths.{validate_project_relative_path, parts, as_posix}
use uv_studio.Projects.Transactions.Model.{
  Bytes, World, Change, no_changes, canonical_document_path, suffix, lower, last_dot,
}
use uv_studio.Projects.Transactions.Commit.{
  Services, staged_changes, encode_documents, strict_json_bytes, collect_changes, same_snapshot,
  path_before, is_empty_list,
}
use uv_studio.Editor.TimelineCommands.Service.{main_path}
use uv_studio.Projects.Transactions.Commits.{collect-inv, collect-nil}
use uv_studio.Projects.Transactions.Encoding.{strict-dumps}

main-canonical : canonical_document_path (Json.str main_path) ≡ ok main_path
unfolding canonical_document_path validate_project_relative_path strip is_space parts as_posix ◌==◌
    contains suffix lower last_dot
main-canonical = refl

module _ (s : Services) where
  collect-one :
      (w : World) (b : Bytes) (cs : List Change)
      → collect_changes s w.documents ((main_path, b) ∷ []) ≡ ok cs
      → is_empty_list cs ≡ false
      → cs ≡ record { path = main_path; before = w.documents main_path; after = some b } ∷ []
  collect-one w b cs h full =
      let (others, e, k) = collect-inv s w.documents main_path b [] cs h in
      let none_else = collect-nil s w.documents others e in
      elim (Bool-cases (same_snapshot s (w.documents main_path) b)) [
        | inl same ↦
            let empty : [] ≡ cs = none_else ∙ (rw same at k) in
            let is : is_empty_list cs ≡ true = subst (λ cs. is_empty_list cs ≡ true) empty refl in
            cc
        | inr other ↦
            sym (rw other at k)
            ∙ ap (◌∷◌ (record { path = main_path; before = w.documents main_path; after = some b }))
                (sym none_else)
      ]

  -- The timeline that is staged is the one change, and it is written as it is serialized.
  pub staged-main :
      (w : World) (f : Fields) (cs : List Change)
      → staged_changes s w ((Json.str main_path, f) ∷ []) ≡ ok cs
      → (b : Bytes) × (s.dumps f ≡ some b)
        × (cs ≡ record { path = main_path; before = w.documents main_path; after = some b } ∷ [])
  unfolding staged_changes encode_documents contains
  staged-main w f cs h =
      let (es, e, k) = >>=-eq-ok (encode_documents s [] ((Json.str main_path, f) ∷ [])) _ h in
      let e' = rw (main-canonical) at e in
      let (b, dumped, last) =
        >>=-eq-ok (strict_json_bytes s main_path f) (λ bytes. ok ((main_path, bytes) ∷ [])) e' in
      let es_eq : (main_path, b) ∷ [] ≡ es = ok_inj last in
      let (_, _, k1) = >>=-eq-ok (s.validate w.documents (map (λ e. (e.0, some e.1)) es)) _ k in
      let (cs', e2, k2) = >>=-eq-ok (collect_changes s w.documents (sort path_before es)) _ k1 in
      let (_, e3, k3) = >>=-eq-ok (raise_if (is_empty_list cs') no_changes) _ k2 in
      let alone : collect_changes s w.documents ((main_path, b) ∷ []) ≡ ok cs' =
        unfold sort insert_sorted in
        subst (λ es. collect_changes s w.documents (sort path_before es) ≡ ok cs') (sym es_eq) e2 in
      let full = raise_if-eq-ok (is_empty_list cs') no_changes e3 in
      (b, strict-dumps s main_path f b dumped, sym (ok_inj k3) ∙ collect-one w b cs' alone full)
