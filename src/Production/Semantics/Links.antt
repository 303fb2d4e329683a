-- ===== src/Production/Semantics/Links.antt =====
-- The loops of `ProductionSemanticsDocument.__post_init__` that follow the links from parents to
-- children: from scenes to shots, and from shots to takes.
use uv_studio.Base.{
  Bool, not, List, [], ◌∷◌, none, some, Text, ◌==◌, find?, contains, all, ◌&&◌, Outcome, ok, raised,
  ◌>>=◌, ◌>>◌, raise_if,
}
use uv_studio.Production.Semantics.Values.{SemanticError}

-- How a kind of children is named, how it names its parent, and what the loop raises.
pub record Kind (A : Type 0) : Type 0 where
  pub id : A → Text
  pub parent : A → Text
  pub unknown : SemanticError
  pub foreign : SemanticError
  pub twice : SemanticError

-- What a loop reads of a parent: its id, the ids that it lists, and what is checked before and
-- after these.
pub record Pass (P : Type 0) : Type 0 where
  pub name : P → Text
  pub listed : P → List Text
  pub before : P → Outcome SemanticError (Unit {0})
  pub after : P → Outcome SemanticError (Unit {0})

module _ {A : Type 0} (k : Kind A) where
  -- `by_id.get(child_id)`, where ids are unique
  unfoldable pub find_child : List A → Text → Outcome SemanticError A
  find_child children id = elim (find? (λ c. k.id c == id) children) [
    | none ↦ raised k.unknown
    | some c ↦ ok c
  ]

  -- The inner loop, over the ids that one parent lists: the ids that are linked so far.
  unfoldable pub link : List A → Text → List Text → List Text → Outcome SemanticError (List Text)
  unfolding find_child
  link children parent linked [] = ok linked
  link children parent linked (id ∷ ids) = do
    child ← find_child children id
    raise_if (not (k.parent child == parent)) k.foreign
    raise_if (contains id linked) k.twice
    link children parent (id ∷ linked) ids

  -- The outer loop, over the parents
  unfoldable pub link_each :
      {P : Type 0} → Pass P → List A → List Text → List P → Outcome SemanticError (List Text)
  unfolding link
  link_each q children linked [] = ok linked
  link_each q children linked (p ∷ ps) = do
    q.before p
    linked' ← link children (q.name p) linked (q.listed p)
    q.after p
    link_each q children linked' ps

-- `set(xs) == set(ys)`
unfoldable pub same_set : List Text → List Text → Bool
same_set xs ys = all (λ x. contains x ys) xs && all (λ y. contains y xs) ys
