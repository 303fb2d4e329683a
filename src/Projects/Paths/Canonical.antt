-- ===== src/Projects/Paths/Canonical.antt =====
-- What an accepted path looks like, and where accepting it again fails.
use uv_studio.Base.{
  ◌≡◌, ◌≢◌, refl, ap, ◌↔◌, false, ◌||◌, List, [], ◌∷◌, arith, Text, codes, ◌==◌, any, contains,
  strip, is_empty, keep_if, ok, raised, All, All-map,
}
use uv_studio.Json.{Json}
use uv_studio.Projects.Errors.{not_canonical}
use uv_studio.Projects.Paths.Split.{
  to_slashes, split, parts, as_posix, is_component, IsPart, parts-IsPart, split-join, split-All,
  join-All, keep_if-All,
}
use uv_studio.Projects.Paths.{
  is_absolute, has_drive, check_normalized, validate_project_relative_path,
}

abbrev NoBackslash : Text → Type 0
NoBackslash = All (λ c. c ≢ 92)

to_slashes-NoBackslash : (s : Text) → NoBackslash (to_slashes s)
unfolding to_slashes
to_slashes-NoBackslash [] = tt
to_slashes-NoBackslash (c ∷ s) = (λ e. ground arith, to_slashes-NoBackslash s)

to_slashes-eq_self : (s : Text) → NoBackslash s → to_slashes s ≡ s
unfolding to_slashes
to_slashes-eq_self [] h = refl
to_slashes-eq_self (c ∷ s) h = ground (arith, to_slashes-eq_self s h.1)

keep_if-eq_self : (ss : List Text) → All IsPart ss → keep_if is_component ss ≡ ss
keep_if-eq_self [] h = refl
keep_if-eq_self (s ∷ ss) h = rw h.0.1 (ap (◌∷◌ s) (keep_if-eq_self ss h.1))

-- The printed path has the same components.
parts-as_posix : (ss : List Text) → All IsPart ss → parts (as_posix ss) ≡ ss
unfolding parts as_posix
parts-as_posix [] h = unfold ◌==◌ in refl
parts-as_posix (s ∷ ss) h =
    rw (split-join s ss (All-map (λ t k. k.0) (s ∷ ss) h)) (keep_if-eq_self (s ∷ ss) h)

as_posix-NoBackslash : (ss : List Text) → All NoBackslash ss → NoBackslash (as_posix ss)
unfolding as_posix
as_posix-NoBackslash [] h = (omega arith, tt)
as_posix-NoBackslash (s ∷ ss) h = join-All (λ c. c ≢ 92) (omega arith) (s ∷ ss) h

as_posix-is_relative : (ss : List Text) → All IsPart ss → is_absolute (as_posix ss) ≡ false
unfolding as_posix is_absolute
as_posix-is_relative [] h = refl
as_posix-is_relative ([] ∷ ss) h = absurd (unfold is_component in ground arith)
as_posix-is_relative ((c ∷ s) ∷ []) h = ground arith
as_posix-is_relative ((c ∷ s) ∷ t ∷ ts) h = ground arith

no_empty_part :
    (ss : List Text) → All IsPart ss → any (λ part. is_empty part || part == codes ".") ss ≡ false
unfolding is_component
no_empty_part [] h = refl
no_empty_part (s ∷ ss) h = ground (arith, no_empty_part ss h.1)

-- An accepted path: without a slash in front, without a parent component, and printed from its own
-- components.
pub record IsCanonical (r : Text) : Type 0 where
  pub no_root : is_absolute r ≡ false
  pub no_parent : contains (codes "..") (parts r) ≡ false
  pub reprinted : as_posix (parts r) ≡ r
  pub no_backslash : to_slashes r ≡ r

check_normalized-parts :
    (s r : Text)
    → check_normalized s ≡ ok r
    → (contains (codes "..") (parts s) ≡ false) × (r ≡ as_posix (parts s))
unfolding check_normalized
check_normalized-parts s r h = ground arith

check_normalized-IsCanonical :
    (s r : Text) → NoBackslash s → check_normalized s ≡ ok r → IsCanonical r
check_normalized-IsCanonical s r plain h =
    let (inside, printed) = check_normalized-parts s r h in
    let same = parts-as_posix (parts s) (parts-IsPart s) in
    rw printed (record {
      no_root = as_posix-is_relative (parts s) (parts-IsPart s);
      no_parent = rw same inside;
      reprinted = ap as_posix same;
      no_backslash = to_slashes-eq_self _ (as_posix-NoBackslash (parts s) (parts_plain s plain));
    })
  where
    parts_plain : (s : Text) → NoBackslash s → All NoBackslash (parts s)
    parts_plain s plain =
        unfold parts in
        keep_if-All NoBackslash is_component (split s) (split-All (λ c. c ≢ 92) s plain)

-- Whatever is accepted comes back with no slash in front, no `..` component, no backslash, and in
-- the one spelling that its components print to. It may still read as a drive path such as `C:/x`,
-- which the function refuses when it is given it.
pub validate_path-IsCanonical :
    (v : Json) (r : Text) → validate_project_relative_path v ≡ ok r → IsCanonical r
unfolding validate_project_relative_path
validate_path-IsCanonical (Json.str s) r h =
    check_normalized-IsCanonical (to_slashes s) r (to_slashes-NoBackslash s) (ground arith)
validate_path-IsCanonical Json.null r h = cc
validate_path-IsCanonical (Json.bool b) r h = cc
validate_path-IsCanonical (Json.int n) r h = cc
validate_path-IsCanonical (Json.float n) r h = cc
validate_path-IsCanonical (Json.arr n) r h = cc
validate_path-IsCanonical (Json.obj n) r h = cc

-- Validating an accepted path again accepts it unchanged, exactly when it does not read as a
-- Windows drive path and is not blank.
pub validate_path_idem :
    (v : Json) (r : Text)
    → validate_project_relative_path v ≡ ok r
    → (validate_project_relative_path (Json.str r) ≡ ok r)
      ↔ ((has_drive r ≡ false) × (is_empty (strip r) ≡ false))
unfolding validate_project_relative_path check_normalized
validate_path_idem v r h =
    let c = validate_path-IsCanonical v r h in
    let k = no_empty_part (parts r) (parts-IsPart r) in
    (
      λ e. ground (arith, c.no_root, c.no_parent, c.reprinted, c.no_backslash, k),
      λ e. ground (arith, c.no_root, c.no_parent, c.reprinted, c.no_backslash, k),
    )

-- The message "reference path is not canonical" is never raised.
pub validate_path-ne-not_canonical :
    (v : Json) → validate_project_relative_path v ≢ raised not_canonical
unfolding validate_project_relative_path check_normalized
validate_path-ne-not_canonical (Json.str s) h =
    ground (arith, no_empty_part (parts (to_slashes s)) (parts-IsPart (to_slashes s)))
validate_path-ne-not_canonical Json.null h = cc
validate_path-ne-not_canonical (Json.bool b) h = cc
validate_path-ne-not_canonical (Json.int n) h = cc
validate_path-ne-not_canonical (Json.float n) h = cc
validate_path-ne-not_canonical (Json.arr n) h = cc
validate_path-ne-not_canonical (Json.obj n) h = cc
