-- ===== src/Json/Value.antt =====
-- The variant that a JSON value is, its type tag, and the accessors, which throw on another tag.
use fidinventor.Base.{ℕ, ◌≡◌, Bool, true, Option, ◌++◌, ℤ, to_int32, to_uint64}
use fidinventor.Base.Text.{Bytes, codes}
use fidinventor.Base.Result.{Result, ok, throw}

-- `double`, with the test `x == 0.0`.
pub record Floats : Type 1 where
  pub Float : Type 0
  pub zero : Float
  pub is_zero : Float → Bool
  pub is_zero-zero : is_zero zero ≡ true

-- Arrays are vectors of values, objects are vectors of pairs in their order.
mutual
  pub data Value (F : Type 0) : Type 0 where
    null : Value F
    str : Bytes → Value F
    bool : Bool → Value F
    int : ℤ → Value F
    real : F → Value F
    arr : Items F → Value F
    obj : Fields F → Value F

  pub data Items (F : Type 0) : Type 0 where
    nil : Items F
    cons : Value F → Items F → Items F

  pub data Fields (F : Type 0) : Type 0 where
    end : Fields F
    field : Bytes → Value F → Fields F → Fields F

pub data ValueType : Type 0 where
  obj_type array_type str_type bool_type int_type real_type null_type : ValueType

-- `Value_type_name[t]`
type_name : ValueType → Bytes
type_name ValueType.obj_type = codes "obj"
type_name ValueType.array_type = codes "array"
type_name ValueType.str_type = codes "str"
type_name ValueType.bool_type = codes "bool"
type_name ValueType.int_type = codes "int"
type_name ValueType.real_type = codes "real"
type_name ValueType.null_type = codes "null"

-- What `check_type` throws.
unfoldable pub mismatch : {A : Type 0} → ValueType → ValueType → Result A
unfolding type_name
mismatch found wanted =
    throw (codes "value is type " ++ (type_name found ++ (codes ", expected " ++ type_name wanted)))

module _ {F : Type 0} where
  -- `value.type()`
  abbrev pub type_of : Value F → ValueType
  type_of null = ValueType.null_type
  type_of (str s) = ValueType.str_type
  type_of (bool b) = ValueType.bool_type
  type_of (int n) = ValueType.int_type
  type_of (real x) = ValueType.real_type
  type_of (arr xs) = ValueType.array_type
  type_of (obj fs) = ValueType.obj_type

  -- `get_str`, `get_bool`, `get_int64`, `get_obj`, `get_array`
  unfoldable pub get_str : Value F → Result Bytes
  get_str (str s) = ok s
  get_str v = mismatch (type_of v) ValueType.str_type

  unfoldable pub get_bool : Value F → Result Bool
  get_bool (bool b) = ok b
  get_bool v = mismatch (type_of v) ValueType.bool_type

  unfoldable pub get_int64 : Value F → Result ℤ
  get_int64 (int n) = ok n
  get_int64 v = mismatch (type_of v) ValueType.int_type

  unfoldable pub get_int : Value F → Result ℤ
  get_int (int n) = ok (to_int32 n)
  get_int v = mismatch (type_of v) ValueType.int_type

  unfoldable pub get_uint64 : Value F → Result ℕ
  get_uint64 (int n) = ok (to_uint64 n)
  get_uint64 v = mismatch (type_of v) ValueType.int_type

  unfoldable pub get_obj : Value F → Result (Fields F)
  get_obj (obj fs) = ok fs
  get_obj v = mismatch (type_of v) ValueType.obj_type

  unfoldable pub get_array : Value F → Result (Items F)
  get_array (arr xs) = ok xs
  get_array v = mismatch (type_of v) ValueType.array_type

-- `read_string(s, value)`, which fails on a text that is no JSON, and `write_string(value, pretty)`.
pub record JsonText (F : Type 0) : Type 0 where
  pub read_string : Bytes → Option (Value F)
  pub write_string : Value F → Bool → Bytes
