-- ===== src/Args/Laws.antt =====
-- A soft setting takes effect exactly where the argument was not set before.
use fidinventor.Base.{◌≡◌, refl, ◌∙◌, Bool, true, false, not, some, arith, if◌then◌else◌, ℤ}
use fidinventor.Base.Text.{Bytes, codes, eq_bytes, eq_bytes_iff, strtoll, c_atoi}
use fidinventor.Base.Dict.{Dict, lookup, assign, count, lookup-assign}
use fidinventor.Base.Decimal.{IsInt64, strtoll-decimal_ℤ}
use fidinventor.Args.{get_arg, get_arg_int, get_bool_arg, soft_set_arg, soft_set_bool_arg, i64tostr}

eq_self : (k : Bytes) → eq_bytes k k ≡ true
eq_self k = (eq_bytes_iff k k).1 refl

-- Reading after a soft setting is reading before it, with the new value as the default for the
-- argument that was set, and the same default for every other. The result tells whether the argument
-- was missing.
pub get_arg-soft_set_arg :
    (args : Dict Bytes) (name value other default : Bytes)
    → (get_arg (soft_set_arg args name value).1 other default
        ≡ get_arg args other (if eq_bytes name other then value else default))
      × ((soft_set_arg args name value).0 ≡ not (count name args))
unfolding get_arg soft_set_arg
get_arg-soft_set_arg args name value other default =
    (ground (arith, lookup-assign name other value args, eq_bytes_iff name other), ground arith)

-- A Boolean that was softly set is read as such, unless the argument was set before; then it is read
-- as before.
pub get_bool_arg-soft_set :
    (args : Dict Bytes) (name : Bytes) (value default : Bool)
    → get_bool_arg (soft_set_bool_arg args name value).1 name default ≡ get_bool_arg args name value
unfolding get_bool_arg soft_set_bool_arg c_atoi
get_bool_arg-soft_set args name true default =
    ground (arith, lookup-assign name name (codes "1") args, eq_self name)
get_bool_arg-soft_set args name false default =
    ground (arith, lookup-assign name name (codes "0") args, eq_self name)

get_arg_int-found :
    (m : Dict Bytes) (name v : Bytes) (default : ℤ)
    → lookup name m ≡ some v
    → get_arg_int m name default ≡ strtoll v
unfolding get_arg_int
get_arg_int-found m name v default e = ground arith

get_assigned : (args : Dict Bytes) (name v : Bytes) → lookup name (assign name v args) ≡ some v
get_assigned args name v = rw (lookup-assign name name v args, eq_self name)

-- An integer of 64 bits that was set as its decimal text is read back as that integer.
pub get_arg_int-i64tostr :
    (args : Dict Bytes) (name : Bytes) (n : ℤ) (default : ℤ)
    → IsInt64 n
    → get_arg_int (assign name (i64tostr n) args) name default ≡ n
unfolding i64tostr
get_arg_int-i64tostr args name n default h =
    get_arg_int-found (assign name (i64tostr n) args) name (i64tostr n) default
      (get_assigned args name (i64tostr n))
    ∙ strtoll-decimal_ℤ n h
