-- ===== src/Projects/References.antt =====
-- `ProjectReference` and the parts of `ProjectDocument` of uv_studio/projects/models.py that name
-- media: the registered sources and artifacts.
use uv_studio.Base.{
  Bool, true, false, not, ◌&&◌, List, [], ◌∷◌, ◌++◌, Option, none, some, Text, codes, ◌==◌,
  contains, find?,
}
use uv_studio.Json.{Fields, get}

pub record Reference : Type 0 where
  pub id : Text
  pub kind : Text
  pub path : Text
  pub metadata : Fields

-- Title, times, settings and extensions of the document play no part here.
pub record Project : Type 0 where
  pub project_id : Text
  pub sources : List Reference
  pub artifacts : List Reference

-- `(*project.sources, *project.artifacts)`
abbrev pub references : Project → List Reference
references p = p.sources ++ p.artifacts

-- `next((item for item in ... if item.id == reference_id), None)`
unfoldable pub find_reference : Project → Text → Option Reference
find_reference p id = find? (λ r. r.id == id) (references p)

-- `_validate_unique_reference_ids`, as a test: the loop fails at the first id that was seen.
unfoldable pub unique_ids : List Text → List Reference → Bool
unique_ids seen [] = true
unique_ids seen (r ∷ rs) =
    let rest = unique_ids (r.id ∷ seen) rs in not (contains r.id seen) && rest

-- `_validate_reference_roles`: no source carries generation metadata.
unfoldable pub roles_respected : List Reference → Bool
roles_respected [] = true
roles_respected (r ∷ rs) = elim (get (codes "generation") r.metadata) [
  | none ↦ roles_respected rs
  | some _ ↦ false
]
