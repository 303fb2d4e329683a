-- ===== src/Json.antt =====
-- The values that `json.loads` yields and that the dataclasses take before they are validated.
-- A float is its 64-bit pattern; an int is unbounded and signed. A dict is its fields in order.
use uv_studio.Base.{
  ℕ, ◌≡◌, refl, Bool, true, false, ◌&&◌, Option, none, some, List, [], ◌∷◌, Text, ◌==◌, nat_eq,
  contains, if◌then◌else◌,
}

pub data ℤ : Type 0 where
  pos : ℕ → ℤ
  negsuc : ℕ → ℤ

mutual
  pub data Json : Type 0 where
    null : Json
    bool : Bool → Json
    int : ℤ → Json
    float : ℕ → Json
    str : Text → Json
    arr : Items → Json
    obj : Fields → Json

  pub data Items : Type 0 where
    nil : Items
    cons : Json → Items → Items

  pub data Fields : Type 0 where
    end : Fields
    field : Text → Json → Fields → Fields

-- A number as JSON.
abbrev pub num : ℕ → Json
num n = Json.int (pos n)

abbrev pub of_list : List Json → Items
of_list [] = Items.nil
of_list (x ∷ xs) = Items.cons x (of_list xs)

abbrev pub to_list : Items → List Json
to_list Items.nil = []
to_list (Items.cons x xs) = x ∷ to_list xs

pub to_list-of_list : (xs : List Json) → to_list (of_list xs) ≡ xs
to_list-of_list [] = refl
to_list-of_list (x ∷ xs) = λ i. x ∷ to_list-of_list xs i

-- `data.get(key)`
unfoldable pub get : Text → Fields → Option Json
get k Fields.end = none
get k (Fields.field j v d) = if k == j then some v else get k d

-- `data.get(key, default)`
unfoldable pub get_or : Text → Json → Fields → Json
unfolding get
get_or k default d = elim (get k d) [ none ↦ default | some v ↦ v ]

-- `not set(data).difference(allowed)`
unfoldable pub only_keys : List Text → Fields → Bool
only_keys allowed Fields.end = true
only_keys allowed (Fields.field k v d) = contains k allowed && only_keys allowed d

-- `not required.difference(data)`
unfoldable pub has_keys : List Text → Fields → Bool
unfolding get
has_keys [] d = true
has_keys (k ∷ ks) d = elim (get k d) [ none ↦ false | some _ ↦ has_keys ks d ]

-- `value == 1` in Python, where `True` and `1.0` are equal to 1 as well.
unfoldable pub equals_one : Json → Bool
equals_one (Json.int (pos n)) = nat_eq n 1
equals_one (Json.bool b) = b
equals_one (Json.float bits) = nat_eq bits 0x3ff0000000000000
equals_one _ = false

-- `isinstance(value, int) and not isinstance(value, bool)`, as a number
unfoldable pub int_of : Json → Option ℤ
int_of (Json.int n) = some n
int_of _ = none

-- `data[key] = value`, and `{**data, key: value}`
unfoldable pub set_field : Text → Json → Fields → Fields
set_field k v Fields.end = Fields.field k v Fields.end
set_field k v (Fields.field j w d) =
    if k == j then Fields.field k v d else Fields.field j w (set_field k v d)

-- `del data[key]`, or nothing where the key is missing
unfoldable pub remove_field : Text → Fields → Fields
remove_field k Fields.end = Fields.end
remove_field k (Fields.field j v d) = if k == j then d else Fields.field j v (remove_field k d)
