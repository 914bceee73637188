-- ===== src/Config.antt =====
-- The configuration of src/config.cpp: `parse_fidconfig` puts the sections of the file into the
-- argument map. Reading the file and its JSON is the property tree library's work, and comes in as
-- the list of the sections, or as what that library throws.
pub mod Laws
use fidinventor.Base.{
  ℕ, Bool, true, false, Option, none, some, List, [], ◌∷◌, ◌++◌, if◌then◌else◌, length, ℤ, pos,
  negsuc, ◌==◌,
}
use fidinventor.Base.Text.{Bytes, codes, eq_bytes, is_empty}
use fidinventor.Base.Dict.{Dict, lookup, insert, get_or_add}
use fidinventor.Base.Result.{Result, ok, throw, ◌>>=◌}

abbrev pub Section : Type 0
Section = Bytes × Dict Bytes

-- `it->second.get<string>(path)`, which throws where the path is missing.
unfoldable pub get_path : Dict Bytes → Bytes → Result Bytes
get_path items path = elim (lookup path items) [
  | none ↦ throw (codes "No such node (" ++ (path ++ codes ")"))
  | some v ↦ ok v
]

-- An argument, the path of its value, and what stands for an empty value.
pub record Entry : Type 0 where
  pub argument : Bytes
  pub path : Bytes
  pub fallback : Bytes

-- `mapArgs.insert(make_pair(argument, "" != value ? value : fallback))`
unfoldable pub insert_entry : Dict Bytes → Entry → Dict Bytes → Result (Dict Bytes)
unfolding get_path
insert_entry items e args = do
  value ← get_path items e.path
  ok (insert e.argument (if is_empty value then e.fallback else value) args)

unfoldable pub insert_entries : Dict Bytes → List Entry → Dict Bytes → Result (Dict Bytes)
unfolding insert_entry
insert_entries items [] args = ok args
insert_entries items (e ∷ es) args = insert_entry items e args >>= insert_entries items es

abbrev pub mysql_entries : List Entry
mysql_entries =
    record { argument = codes "-database"; path = codes "database"; fallback = codes "fidchain" }
    ∷ record { argument = codes "-dbname"; path = codes "dbname"; fallback = codes "fidchain" }
    ∷ record { argument = codes "-dbpasswd"; path = codes "dbpasswd"; fallback = codes "123123" }
    ∷ record { argument = codes "-dburl"; path = codes "dburl"; fallback = codes "127.0.0.1" }
    ∷ record { argument = codes "-dbport"; path = codes "dbport"; fallback = codes "3306" }
    ∷ []

abbrev pub rpc_entries : List Entry
rpc_entries =
    record { argument = codes "-rpcuser"; path = codes "rpcuser"; fallback = codes "fidchainrpc20" }
    ∷ record {
      argument = codes "-rpcpassword";
      path = codes "rpcpasswd";
      fallback = codes "DSBs3pKSdpiTAPDms";
    }
    ∷ record {
      argument = codes "-rpcconnect";
      path = codes "rpcconnect";
      fallback = codes "139.224.13.20";
    }
    ∷ []

-- One section; printing `mapArgs["database"]` adds that key, and so with "rpcuser".
unfoldable pub parse_section : Section → Dict Bytes → Result (Dict Bytes)
unfolding insert_entries
parse_section (key, items) args =
    if eq_bytes key (codes "mysql")
    then (do
      args' ← insert_entries items mysql_entries args
      ok (get_or_add (codes "database") args').1)
    else if eq_bytes key (codes "rpc")
    then (do
      args' ← insert_entries items rpc_entries args
      ok (get_or_add (codes "rpcuser") args').1)
    else ok args

unfoldable pub parse_sections : List Section → Dict Bytes → Result (Dict Bytes)
unfolding parse_section
parse_sections [] args = ok args
parse_sections (s ∷ ss) args = parse_section s args >>= parse_sections ss

-- `parse_fidconfig`: the number of sections, or -1 where there is none, and the map.
unfoldable pub parse_fidconfig : Result (List Section) → Dict Bytes → Result (ℤ × Dict Bytes)
unfolding parse_sections
parse_fidconfig file args = do
  items ← file
  args' ← parse_sections items args
  ok ((if length items == 0 then negsuc 0 else pos (length items)), args')

-- `generate_defaultfidconfig`: the sections that are written.
abbrev pub default_config : List Section
default_config =
    (
      codes "mysql",
      (codes "database", codes "fidchainblock")
          ∷ (codes "dbname", codes "fidchain")
          ∷ (codes "dbpasswd", codes "123123")
          ∷ (codes "dburl", codes "127.0.0.1")
          ∷ (codes "dbport", codes "3306")
          ∷ [],
    )
    ∷ (
      codes "rpc",
      (codes "rpcuser", codes "fidchainrpc20")
          ∷ (codes "rpcpasswd", codes "DSBs3pKSdpiTAPDms")
          ∷ (codes "rpcconnect", codes "139.224.13.20")
          ∷ [],
    )
    ∷ []
