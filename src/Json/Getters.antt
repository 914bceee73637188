-- ===== src/Json/Getters.antt =====
-- The overloads of `getJsonObjValue` of src/wrap.h. None of them throws: a value of another type
-- gives the default, except that the string overload then leaves its target as it was.
use fidinventor.Base.{ℕ, Bool, true, false, ℤ, pos, to_int32, to_uint64}
use fidinventor.Base.Text.{Bytes}
use fidinventor.Json.Value.{
  Floats, Value, str, bool, int, real, arr, obj, Items, nil, Fields, end, JsonText,
}
use fidinventor.Json.Object.{find_value}

module _ {F : Type 0} where
  array_or_empty : Value F → Items F
  array_or_empty (arr xs) = xs
  array_or_empty v = nil

  unfoldable pub get_array_value : Fields F → Bytes → Items F
  unfolding array_or_empty
  get_array_value fs key = array_or_empty (find_value fs key)

  object_or_empty : Value F → Fields F
  object_or_empty (obj fs) = fs
  object_or_empty v = end

  unfoldable pub get_object_value : Fields F → Bytes → Fields F
  unfolding object_or_empty
  get_object_value fs key = object_or_empty (find_value fs key)

  bool_or_false : Value F → Bool
  bool_or_false (bool b) = b
  bool_or_false v = false

  unfoldable pub get_bool_value : Fields F → Bytes → Bool
  unfolding bool_or_false
  get_bool_value fs key = bool_or_false (find_value fs key)

  int_or_zero : Value F → ℤ
  int_or_zero (int n) = to_int32 n
  int_or_zero v = pos 0

  unfoldable pub get_int_value : Fields F → Bytes → ℤ
  unfolding int_or_zero
  get_int_value fs key = int_or_zero (find_value fs key)

  uint64_or_zero : Value F → ℕ
  uint64_or_zero (int n) = to_uint64 n
  uint64_or_zero v = 0

  unfoldable pub get_fidint_value : Fields F → Bytes → ℕ
  unfolding uint64_or_zero
  get_fidint_value fs key = uint64_or_zero (find_value fs key)

  int64_or_zero : Value F → ℤ
  int64_or_zero (int n) = n
  int64_or_zero v = pos 0

  unfoldable pub get_fidtime_value : Fields F → Bytes → ℤ
  unfolding int64_or_zero
  get_fidtime_value fs key = int64_or_zero (find_value fs key)

-- An array is written out as JSON, in the pretty form.
string_or : {F : Type 0} → JsonText F → Value F → Bytes → Bytes
string_or text (arr xs) old = text.write_string (arr xs) true
string_or text (str s) old = s
string_or text v old = old

unfoldable pub get_string_value : {F : Type 0} → JsonText F → Fields F → Bytes → Bytes → Bytes
unfolding string_or
get_string_value text fs key old = string_or text (find_value fs key) old

module _ (floats : Floats) where
  open floats use {Float, zero}

  real_or_zero : Value Float → Float
  real_or_zero (real x) = x
  real_or_zero v = zero

  unfoldable pub get_double_value : Fields Float → Bytes → Float
  unfolding real_or_zero
  get_double_value fs key = real_or_zero (find_value fs key)
