-- ===== src/Production/State.antt =====
-- uv_studio/projects/production_state.py: the JSON documents under production/.
use uv_studio.Base.{
  ℕ, Bool, true, false, not, ◌&&◌, codes, ltb, nat_eq, Outcome, ok, raised, ◌>>◌, raise_if,
}
use Prim.Native.Nat.{◌/◌, ◌%◌}
use uv_studio.Json.{Json, Items, Fields, pos, null, bool, int, float, str, arr, obj, get_or}
use uv_studio.Projects.Files.{JsonFile}

-- `ProductionStateError`; `not_found` is `ProductionDocumentNotFound`.
pub data StateError : Type 0 where
  not_object bad_schema not_portable unresolved not_found irregular malformed : StateError

-- A float is written as JSON unless its exponent is that of the infinities and of NaN.
abbrev pub is_finite : ℕ → Bool
is_finite bits = not (nat_eq (bits / 0x10000000000000 % 2048) 2047)

-- `json.dumps(value, allow_nan=False)` passes
unfoldable mutual
  pub is_portable : Json → Bool
  is_portable null = true
  is_portable (bool _) = true
  is_portable (int _) = true
  is_portable (float bits) = is_finite bits
  is_portable (str _) = true
  is_portable (arr items) = portable_items items
  is_portable (obj d) = portable_fields d

  pub portable_items : Items → Bool
  portable_items Items.nil = true
  portable_items (Items.cons v items) = is_portable v && portable_items items

  pub portable_fields : Fields → Bool
  portable_fields Fields.end = true
  portable_fields (Fields.field _ v d) = is_portable v && portable_fields d

-- `isinstance(value, int) and not isinstance(value, bool) and value > 0`
unfoldable pub is_positive_int : Json → Bool
is_positive_int (Json.int (pos n)) = ltb 0 n
is_positive_int _ = false

unfoldable pub validate_production_document : Json → Outcome StateError Fields
unfolding is_positive_int
validate_production_document (Json.obj d) = do
  raise_if (not (is_positive_int (get_or (codes "schema_version") Json.null d))) bad_schema
  raise_if (not (is_portable (Json.obj d))) not_portable
  ok d
validate_production_document _ = raised not_object

-- `ProductionDocumentStore.load`, of a project that is loaded
unfoldable pub load_document : JsonFile → Outcome StateError Fields
load_document JsonFile.unresolvable_file = raised unresolved
load_document JsonFile.no_file = raised not_found
load_document JsonFile.irregular_file = raised irregular
load_document JsonFile.malformed = raised malformed
load_document (JsonFile.document d) = validate_production_document d
