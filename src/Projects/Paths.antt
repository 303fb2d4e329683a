-- ===== src/Projects/Paths.antt =====
-- `validate_project_relative_path` of uv_studio/projects/models.py, over the part of
-- `pathlib.PurePosixPath` that it uses.
mod Split
unfoldable pub use Split.*
pub mod Canonical
use uv_studio.Base.{
  ℕ, ◌≡◌, refl, Bool, true, false, not, ◌&&◌, ◌||◌, List, [], ◌∷◌, ◌++◌, map, arith, Text, codes,
  ◌==◌, leb, nat_eq, any, contains, strip, is_empty, keep_if, if◌then◌else◌, Outcome, ok, raised,
  ◌>>=◌, ◌>>◌, raise_if,
}
use uv_studio.Json.{Json}
use uv_studio.Projects.Errors.{ValidationError, empty_path, outside_project, not_canonical}

-- `path.is_absolute()`
unfoldable pub is_absolute : Text → Bool
is_absolute [] = false
is_absolute (c ∷ _) = nat_eq c b'/'

-- `_WINDOWS_DRIVE_RE.match(text)`: `^[A-Za-z]:/`
unfoldable pub has_drive : Text → Bool
has_drive (a ∷ b ∷ c ∷ _) =
    ((leb b'A' a && leb a b'Z') || (leb b'a' a && leb a b'z')) && nat_eq b b':' && nat_eq c b'/'
has_drive _ = false

-- The checks on the text with its backslashes replaced, in the order of the source.
unfoldable pub check_normalized : Text → Outcome ValidationError Text
unfolding is_absolute has_drive
check_normalized normalized = do
  raise_if
      (is_absolute normalized || has_drive normalized || contains (codes "..") (parts normalized))
      outside_project
  raise_if (any (λ part. is_empty part || part == codes ".") (parts normalized)) not_canonical
  ok (as_posix (parts normalized))

unfoldable pub validate_project_relative_path : Json → Outcome ValidationError Text
unfolding check_normalized to_slashes
validate_project_relative_path (Json.str value) =
    if is_empty (strip value) then raised empty_path else check_normalized (to_slashes value)
validate_project_relative_path _ = raised empty_path
