-- ===== src/Projects/Identifiers.antt =====
-- `validate_identifier` of uv_studio/projects/models.py.
use uv_studio.Base.{
  ℕ, ◌≡◌, Bool, true, false, ◌&&◌, ◌||◌, [], ◌∷◌, arith, Text, leb, nat_eq, length, all,
  if◌then◌else◌, Outcome, ok, raised,
}
use uv_studio.Json.{Json}
use uv_studio.Projects.Errors.{ValidationError, bad_identifier}

-- `[A-Za-z0-9]`
unfoldable pub is_alnum : ℕ → Bool
is_alnum c = (leb b'A' c && leb c b'Z') || (leb b'a' c && leb c b'z') || (leb b'0' c && leb c b'9')

-- `[A-Za-z0-9_.-]`
unfoldable pub is_id_char : ℕ → Bool
unfolding is_alnum
is_id_char c = is_alnum c || nat_eq c b'_' || nat_eq c b'.' || nat_eq c b'-'

-- `_ID_RE.fullmatch(value)`: one alphanumeric character, and up to 127 more characters.
unfoldable pub matches_id : Text → Bool
unfolding is_id_char
matches_id [] = false
matches_id (c ∷ s) = is_alnum c && leb (length s) 127 && all is_id_char s

unfoldable pub validate_identifier : Json → Outcome ValidationError Text
validate_identifier (Json.str s) = if matches_id s then ok s else raised bad_identifier
validate_identifier _ = raised bad_identifier

pub validate_identifier-eq_self :
    (s : Text) → matches_id s ≡ true → validate_identifier (Json.str s) ≡ ok s
unfolding validate_identifier
validate_identifier-eq_self s h = ground arith

pub validate_identifier-eq-ok :
    (v : Json) (s : Text) → validate_identifier v ≡ ok s → (v ≡ Json.str s) × (matches_id s ≡ true)
unfolding validate_identifier
validate_identifier-eq-ok (Json.str t) s h = ground arith
validate_identifier-eq-ok Json.null s h = cc
validate_identifier-eq-ok (Json.bool b) s h = cc
validate_identifier-eq-ok (Json.int n) s h = cc
validate_identifier-eq-ok (Json.float n) s h = cc
validate_identifier-eq-ok (Json.arr n) s h = cc
validate_identifier-eq-ok (Json.obj n) s h = cc
