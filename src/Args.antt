-- ===== src/Args.antt =====
-- The arguments of the program: `GetArg`, `GetBoolArg`, `SoftSetArg` and `SoftSetBoolArg` of
-- src/utils.cpp over the map `mapArgs`, and `get_fidconfig` of src/config.cpp.
pub mod Laws
use fidinventor.Base.{
  ℕ, Bool, true, false, not, Option, none, some, [], ◌∷◌, if◌then◌else◌, ◌==◌, ℤ, pos, eq_ℤ,
}
use fidinventor.Base.Text.{Bytes, codes, is_empty, strtoll, c_atoi}
use fidinventor.Base.Dict.{Dict, lookup, assign, count, value_at}
use fidinventor.Base.Decimal.{decimal_ℤ}

-- `GetArg(strArg, strDefault)`
unfoldable pub get_arg : Dict Bytes → Bytes → Bytes → Bytes
get_arg args name default = if count name args then value_at name args else default

-- `GetArg(strArg, nDefault)`
unfoldable pub get_arg_int : Dict Bytes → Bytes → ℤ → ℤ
get_arg_int args name default = if count name args then strtoll (value_at name args) else default

-- `GetBoolArg(strArg, fDefault)`
unfoldable pub get_bool_arg : Dict Bytes → Bytes → Bool → Bool
get_bool_arg args name default =
    if count name args
    then (if is_empty (value_at name args)
        then true
        else not (eq_ℤ (c_atoi (value_at name args)) (pos 0)))
    else default

-- `SoftSetArg(strArg, strValue)`: whether it was set, and the map.
unfoldable pub soft_set_arg : Dict Bytes → Bytes → Bytes → Bool × Dict Bytes
soft_set_arg args name value =
    if count name args then (false, args) else (true, assign name value args)

-- `SoftSetBoolArg(strArg, fValue)`
unfoldable pub soft_set_bool_arg : Dict Bytes → Bytes → Bool → Bool × Dict Bytes
unfolding soft_set_arg
soft_set_bool_arg args name value =
    if value then soft_set_arg args name (codes "1") else soft_set_arg args name (codes "0")

-- `get_fidconfig(key)`
unfoldable pub get_fidconfig : Dict Bytes → Bytes → Bytes
get_fidconfig args key = elim (lookup key args) [ none ↦ [] | some v ↦ v ]

-- `i64tostr(n)`: `strprintf("%d", n)` is the decimal text of `n`.
unfoldable pub i64tostr : ℤ → Bytes
i64tostr n = decimal_ℤ n

-- `itostr(n)`
unfoldable pub itostr : ℤ → Bytes
itostr n = decimal_ℤ n

-- `IsSwitchChar(c)`, as it is outside Windows.
unfoldable pub is_switch_char : ℕ → Bool
is_switch_char c = c == b'-'
