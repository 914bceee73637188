-- ===== src/Tests/Texts.antt =====
-- Base64 texts, arguments and the configuration at concrete inputs.
use fidinventor.Base.{
  ◌+◌, ◌*◌, ◌/◌, ◌≡◌, refl, true, false, not, some, [], ◌∷◌, ◌++◌, if◌then◌else◌, All, arith, pos,
  negsuc, length,
}
use fidinventor.Base.Text.{Bytes, IsByte, codes, eq_bytes, c_atoi}
use fidinventor.Base.Dict.{Dict, count, lookup, assign}
use fidinventor.Base.Result.{ok}
use fidinventor.Base64.{encode_base64, decode_base64}
use fidinventor.Base64.Reference.{reference64, encode_base64-reference}
use fidinventor.Base64.RoundTrip.{decode-encode}
use fidinventor.Base64.Canonical.{accepted_is_canonical}
use fidinventor.Base64.Shape.{IsGraphic, length-encode_base64, encode_base64-IsGraphic}
use fidinventor.Args.{
  get_arg, get_arg_int, get_bool_arg, soft_set_arg, soft_set_bool_arg, get_fidconfig, i64tostr,
}
use fidinventor.Args.Laws.{get_arg-soft_set_arg, get_bool_arg-soft_set, get_arg_int-i64tostr}
use fidinventor.Config.{parse_fidconfig}
use fidinventor.Config.Laws.{value_or, parse_fidconfig-full}
use fidinventor.Db.Session.{config_login}

encode_man : encode_base64 (codes "Man.") ≡ codes "TWFuLg=="
unfolding encode_base64
encode_man = refl

decode_man : decode_base64 (codes "TWFuLg==") ≡ (codes "Man.", false)
unfolding decode_base64
decode_man = refl

-- A stray pad in the middle is refused.
decode_broken : (decode_base64 (codes "TW=u")).1 ≡ true
unfolding decode_base64
decode_broken = refl

decode-encode_example : decode_base64 (encode_base64 (codes "user:pw")) ≡ (codes "user:pw", false)
decode-encode_example = decode-encode (codes "user:pw") (omega arith)

accepted_is_canonical_example :
    (rest : Bytes) × All IsByte (codes "Man.")
    × (codes "TWFuLg==" ≡ encode_base64 (codes "Man.") ++ rest)
accepted_is_canonical_example = accepted_is_canonical (codes "TWFuLg==") (omega arith) decode_man

length-encode_base64_example :
    length (encode_base64 (codes "user:pw")) ≡ (length (codes "user:pw") + 2) / 3 * 4
length-encode_base64_example = length-encode_base64 (codes "user:pw")

encode_base64-IsGraphic_example : All IsGraphic (encode_base64 (codes "user:pw"))
encode_base64-IsGraphic_example = encode_base64-IsGraphic (codes "user:pw") (omega arith)

abbrev some_args : Dict Bytes
some_args = (codes "-rpcport", codes "9005") ∷ (codes "-rpcuser", codes "fid") ∷ []

get_arg-soft_set_arg_example :
    (get_arg
        (soft_set_arg some_args (codes "-rpcconnect") (codes "127.0.0.1")).1
        (codes "-rpcuser")
        (codes "none")
      ≡ get_arg some_args (codes "-rpcuser") (
          if eq_bytes (codes "-rpcconnect") (codes "-rpcuser")
          then codes "127.0.0.1"
          else codes "none"))
    × ((soft_set_arg some_args (codes "-rpcconnect") (codes "127.0.0.1")).0
        ≡ not (count (codes "-rpcconnect") some_args))
get_arg-soft_set_arg_example =
    get_arg-soft_set_arg some_args (codes "-rpcconnect") (codes "127.0.0.1") (codes "-rpcuser")
      (codes "none")

get_bool_arg-soft_set_example :
    get_bool_arg (soft_set_bool_arg some_args (codes "-rpcssl") true).1 (codes "-rpcssl") false
    ≡ get_bool_arg some_args (codes "-rpcssl") true
get_bool_arg-soft_set_example = get_bool_arg-soft_set some_args (codes "-rpcssl") true false

get_arg_int-i64tostr_example :
    get_arg_int
      (assign (codes "-height") (i64tostr (negsuc 41)) some_args)
      (codes "-height")
      (pos 7)
    ≡ negsuc 41
get_arg_int-i64tostr_example =
    get_arg_int-i64tostr some_args (codes "-height") (negsuc 41) (pos 7) (omega arith)

abbrev mysql_values : Dict Bytes
mysql_values =
    (codes "database", codes "chain")
    ∷ (codes "dbname", codes "fid")
    ∷ (codes "dbpasswd", [])
    ∷ (codes "dburl", codes "10.0.0.1")
    ∷ (codes "dbport", codes "3307")
    ∷ []

abbrev rpc_values : Dict Bytes
rpc_values =
    (codes "rpcconnect", []) ∷ (codes "rpcpasswd", codes "pw") ∷ (codes "rpcuser", codes "u") ∷ []

parse_fidconfig-full_example :
    (args : Dict Bytes) × (parse_fidconfig
        (ok ((codes "mysql", mysql_values) ∷ (codes "rpc", rpc_values) ∷ []))
        []
      ≡ ok (pos 2, args))
    × (config_login args ≡ record {
      database = value_or (codes "fidchain") (codes "chain");
      address = value_or (codes "127.0.0.1") (codes "10.0.0.1");
      user = value_or (codes "fidchain") (codes "fid");
      password = value_or (codes "123123") [];
      port = some (c_atoi (value_or (codes "3306") (codes "3307")));
    })
    × (get_fidconfig args (codes "-rpcuser") ≡ value_or (codes "fidchainrpc20") (codes "u"))
    × (get_fidconfig args (codes "-rpcpassword")
        ≡ value_or (codes "DSBs3pKSdpiTAPDms") (codes "pw"))
    × (get_fidconfig args (codes "-rpcconnect") ≡ value_or (codes "139.224.13.20") [])
unfolding lookup eq_bytes
parse_fidconfig-full_example =
    parse_fidconfig-full mysql_values rpc_values refl refl refl refl refl refl refl refl

encode_base64-reference_example : encode_base64 (codes "Many") ≡ reference64 (codes "Many")
encode_base64-reference_example = encode_base64-reference (codes "Many") (omega arith)
