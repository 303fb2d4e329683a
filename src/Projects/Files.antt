-- ===== src/Projects/Files.antt =====
-- Files of one project on disk, and `ProjectStore.resolve_project_file` of
-- uv_studio/projects/store.py. What the operating system answers about a path is a parameter.
use uv_studio.Base.{
  Bool, true, false, not, List, [], ◌∷◌, Text, contains, Outcome, ok, raised, ◌>>=◌, ◌>>◌, raise_if,
  if◌then◌else◌,
}
use uv_studio.Json.{Json}
use uv_studio.Projects.Errors.{
  ValidationError, empty_file_path, root_not_allowed, unresolvable, missing_file,
}
use uv_studio.Projects.Paths.{validate_project_relative_path, parts}

-- What stands at a canonical path, once its parent and the allowed roots are resolved: nothing
-- that may be used (a missing parent, a symbolic link that leaves the project or the roots), no
-- file, a regular file, or something else such as a directory.
pub data Entry : Type 0 where
  refused absent regular irregular : Entry

-- The operating system's answers, by canonical path and allowed roots.
abbrev pub Disk : Type 0
Disk = List Text → Text → Entry

-- `parts[0] in roots`
unfoldable pub in_roots : List Text → List Text → Bool
in_roots roots [] = false
in_roots roots (part ∷ _) = contains part roots

abbrev pub is_nil : List Text → Bool
is_nil [] = true
is_nil (_ ∷ _) = false

-- The outcome for a path that the validation has accepted.
unfoldable pub locate : Bool → Entry → Outcome ValidationError Entry
locate must_exist Entry.refused = raised unresolvable
locate must_exist Entry.absent = if must_exist then raised missing_file else ok Entry.absent
locate must_exist found = ok found

unfoldable pub resolve_project_file : Disk → Bool → List Text → Json → Outcome ValidationError Entry
unfolding in_roots locate
resolve_project_file disk must_exist roots path = do
  canonical ← validate_project_relative_path path
  raise_if (is_nil (parts canonical)) empty_file_path
  raise_if (not (in_roots roots (parts canonical))) root_not_allowed
  locate must_exist (disk roots canonical)

-- `resolved.is_file() and not resolved.is_symlink()`; a resolved path is no symbolic link.
unfoldable pub is_regular : Entry → Bool
is_regular Entry.regular = true
is_regular _ = false

-- What stands at the path of a JSON document of the project: the path is refused, nothing, no
-- regular file, a text that is no JSON, or a parsed document.
pub data JsonFile : Type 0 where
  unresolvable_file no_file irregular_file malformed : JsonFile
  document : Json → JsonFile

-- `_path(...)` raises for a refused path only.
unfoldable pub is_resolvable : JsonFile → Bool
is_resolvable JsonFile.unresolvable_file = false
is_resolvable _ = true
