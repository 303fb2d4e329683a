-- ===== src/Production/Semantics/Checks.antt =====
-- What the checks of single values accept: each is accepted as it stands once it is valid.
use uv_studio.Base.{
  ◌∷◌, sym, ◌∙◌, [], to_set, ℕ, ◌≡◌, ◌≢◌, ◌≤◌, refl, Bool, true, false, not, ◌&&◌, List, map,
  Option, none, some, Text, is_empty, strip, ltb, length, all_distinct, all_distinct_iff, All,
  AllPairs, ok, ok_inj, or_raise-eq-ok, raise_if, raise_if-eq-ok, raise_unless_inv, >>=-eq-ok,
  traverse, traverse-map, All-traverse, ◌>>=◌, arith,
}
use uv_studio.Base.Strip.{strip_idem}
use mathlib.Core.Path.{subst}
use uv_studio.Json.{of_list, Json, Items, to_list, to_list-of_list}
use uv_studio.Projects.Identifiers.{
  matches_id, validate_identifier, validate_identifier-eq_self, validate_identifier-eq-ok,
}
use uv_studio.Production.Semantics.Values.{
  bad_identifier, empty_text, long_text, repeated_id, identifier, text_of, id_tuple, id_list,
  optional_identifier, optional_text,
}

abbrev pub IsIdentifier : Text → Type 0
IsIdentifier s = matches_id s ≡ true

-- A text within its limit, with no space around it, that is not empty where it is required.
pub record IsText (required : Bool) (limit : ℕ) (s : Text) : Type 0 where
  pub stripped : strip s ≡ s
  pub present : required && is_empty s ≡ false
  pub short : length s ≤ limit

-- Different identifiers
pub record IsIds (ids : List Text) : Type 0 where
  pub each : All IsIdentifier ids
  pub differ : AllPairs (λ s t. s ≢ t) ids

pub identifier-IsIdentifier : (v : Json) (s : Text) → identifier v ≡ ok s → IsIdentifier s
unfolding identifier
identifier-IsIdentifier v s h =
    (validate_identifier-eq-ok v s (or_raise-eq-ok (validate_identifier v) bad_identifier h)).1

pub identifier-eq_self : (s : Text) → IsIdentifier s → identifier (Json.str s) ≡ ok s
unfolding identifier
identifier-eq_self s h = rw (validate_identifier-eq_self s h) refl

pub text_of-IsText : (r : Bool) (n : ℕ) (v : Json) (s : Text) → text_of r n v ≡ ok s → IsText r n s
unfolding text_of
text_of-IsText r n (Json.str t) s h =
    let (_, e, h1) = >>=-eq-ok (raise_if (r && is_empty (strip t)) empty_text) _ h in
    let (_, f, h2) = >>=-eq-ok (raise_if (ltb n (length (strip t))) long_text) _ h1 in
    subst (λ (x : Text). IsText r n x) (ok_inj h2)
      (record {
        stripped = strip_idem t;
        present = raise_if-eq-ok _ empty_text e;
        short = let a = raise_if-eq-ok _ long_text f in ground arith;
      })
text_of-IsText r n Json.null s h = cc
text_of-IsText r n (Json.bool b) s h = cc
text_of-IsText r n (Json.int b) s h = cc
text_of-IsText r n (Json.float b) s h = cc
text_of-IsText r n (Json.arr b) s h = cc
text_of-IsText r n (Json.obj b) s h = cc

pub text_of-eq_self : (r : Bool) (n : ℕ) (s : Text) → IsText r n s → text_of r n (Json.str s) ≡ ok s
unfolding text_of
text_of-eq_self r n s h =
    let short : ltb n (length s) ≡ false = let a = h.short in ground arith in
    rw (h.stripped, h.present, short) refl

pub id_tuple-IsIds : (v : Json) (ids : List Text) → id_tuple v ≡ ok ids → IsIds ids
unfolding id_tuple
id_tuple-IsIds (Json.arr items) ids h =
    let (xs, e, h1) = >>=-eq-ok (traverse identifier (to_list items)) _ h in
    let (_, f, h2) = >>=-eq-ok (raise_if (not (all_distinct xs)) repeated_id) _ h1 in
    subst IsIds (ok_inj h2) (record {
      each = All-traverse IsIdentifier identifier identifier-IsIdentifier (to_list items) xs e;
      differ = (all_distinct_iff xs).0 (raise_unless_inv _ _ f);
    })
id_tuple-IsIds Json.null ids h = cc
id_tuple-IsIds (Json.bool b) ids h = cc
id_tuple-IsIds (Json.int b) ids h = cc
id_tuple-IsIds (Json.float b) ids h = cc
id_tuple-IsIds (Json.str b) ids h = cc
id_tuple-IsIds (Json.obj b) ids h = cc

pub id_tuple-eq_self : (ids : List Text) → IsIds ids → id_tuple (id_list ids) ≡ ok ids
unfolding id_tuple
id_tuple-eq_self ids h =
    rw
      (
        to_list-of_list (map (λ id. Json.str id) ids),
        traverse-map IsIdentifier (λ id. Json.str id) identifier identifier-eq_self ids h.each,
        (all_distinct_iff ids).1 h.differ,
      )
      refl

some-IsIdentifier :
    (v : Json) (o : Option Text)
    → (identifier v >>= λ id. ok (some id)) ≡ ok o
    → (id : Text) → o ≡ some id
    → IsIdentifier id
some-IsIdentifier v o h id e =
    let (s, f, h1) = >>=-eq-ok (identifier v) (λ id. ok (some id)) h in
    let same : s ≡ id = let k = ok_inj h1 in ground arith in
    subst IsIdentifier same (identifier-IsIdentifier v s f)

pub optional_identifier-IsIdentifier :
    (v : Json) (o : Option Text)
    → optional_identifier v ≡ ok o
    → (id : Text) → o ≡ some id
    → IsIdentifier id
unfolding optional_identifier
optional_identifier-IsIdentifier Json.null o h id e = let k = ok_inj h in cc
optional_identifier-IsIdentifier (Json.bool b) o h id e = some-IsIdentifier (Json.bool b) o h id e
optional_identifier-IsIdentifier (Json.int b) o h id e = some-IsIdentifier (Json.int b) o h id e
optional_identifier-IsIdentifier (Json.float b) o h id e = some-IsIdentifier (Json.float b) o h id e
optional_identifier-IsIdentifier (Json.str b) o h id e = some-IsIdentifier (Json.str b) o h id e
optional_identifier-IsIdentifier (Json.arr b) o h id e = some-IsIdentifier (Json.arr b) o h id e
optional_identifier-IsIdentifier (Json.obj b) o h id e = some-IsIdentifier (Json.obj b) o h id e

pub optional_identifier-eq_self :
    (o : Option Text)
    → ((id : Text) → o ≡ some id → IsIdentifier id)
    → optional_identifier (optional_text o) ≡ ok o
unfolding optional_identifier optional_text
optional_identifier-eq_self none h = refl
optional_identifier-eq_self (some id) h = rw (identifier-eq_self id (h id refl)) refl

pub id_tuple-nil : id_tuple (Json.arr Items.nil) ≡ ok []
unfolding id_tuple traverse all_distinct to_set
id_tuple-nil = refl

identifier-str : (x y : Text) → identifier (Json.str x) ≡ ok y → y ≡ x
unfolding identifier
identifier-str x y h =
    let e =
      (validate_identifier-eq-ok (Json.str x) y
        (or_raise-eq-ok (validate_identifier (Json.str x)) bad_identifier h)).0 in
    cc

same_ids : (xs zs : List Text) → traverse identifier (map (λ x. Json.str x) xs) ≡ ok zs → zs ≡ xs
unfolding traverse
same_ids [] zs h = sym (ok_inj h)
same_ids (x ∷ xs) zs h =
    let rest = traverse identifier (map (λ x. Json.str x) xs) in
    let (y, e, h1) = >>=-eq-ok (identifier (Json.str x)) (λ y. rest >>= λ ys. ok (y ∷ ys)) h in
    let (ys, e1, h2) = >>=-eq-ok rest (λ ys. ok (y ∷ ys)) h1 in
    sym (ok_inj h2) ∙ (λ i. identifier-str x y e i ∷ same_ids xs ys e1 i)

-- A list of ids that is accepted is returned as it stands.
pub id_tuple-id_list : (xs ys : List Text) → id_tuple (id_list xs) ≡ ok ys → ys ≡ xs
unfolding id_tuple
id_tuple-id_list xs ys h =
    let printed = map (λ x. Json.str x) xs in
    let (zs, e, h1) = >>=-eq-ok (traverse identifier (to_list (of_list printed))) _ h in
    let (_, _, h2) = >>=-eq-ok (raise_if (not (all_distinct zs)) repeated_id) _ h1 in
    let reads = subst (λ js. traverse identifier js ≡ ok zs) (to_list-of_list printed) e in
    sym (ok_inj h2) ∙ same_ids xs zs reads
