-- ===== src/Config/Laws.antt =====
-- What a configuration file with both its sections means for the database and for the RPC calls.
use fidinventor.Base.{◌≡◌, refl, ap, ◌∙◌, none, some, List, [], ◌∷◌, ◌++◌, if◌then◌else◌, pos}
use fidinventor.Base.Text.{Bytes, codes, eq_bytes, lt_bytes, is_empty, c_atoi}
use fidinventor.Base.Dict.{Dict, lookup, assign, insert, get_or_add}
use fidinventor.Base.Result.{ok, throw, ◌>>=◌}
use fidinventor.Args.{get_fidconfig}
use fidinventor.Config.{
  Entry, mysql_entries, rpc_entries, get_path, insert_entry, insert_entries, parse_section,
  parse_sections, parse_fidconfig,
}
use fidinventor.Db.Session.{config_login}

-- A value of the file, or what stands for an empty one.
abbrev pub value_or : Bytes → Bytes → Bytes
value_or fallback value = if is_empty value then fallback else value

path_found :
    (items : Dict Bytes) (path : Bytes) {v : Bytes}
    → lookup path items ≡ some v
    → get_path items path ≡ ok v
unfolding get_path
path_found items path h =
    ap
      (λ o. elim o [ none ↦ throw (codes "No such node (" ++ (path ++ codes ")")) | some v ↦ ok v ])
      h

-- An entry whose path is in the section goes into the map.
step :
    (items : Dict Bytes) (e : Entry) (es : List Entry) (args : Dict Bytes) {v : Bytes}
    → lookup e.path items ≡ some v
    → insert_entries items (e ∷ es) args
      ≡ insert_entries items es (insert e.argument (value_or e.fallback v) args)
unfolding insert_entries insert_entry
step items e es args h =
    ap
      (λ r.
        (r >>= λ value. ok (insert e.argument (value_or e.fallback value) args))
        >>= insert_entries items es)
      (path_found items e.path h)

no_entries : (items args : Dict Bytes) → insert_entries items [] args ≡ ok args
unfolding insert_entries
no_entries items args = refl

-- The map after the first section.
abbrev mysql_map : (database name passwd url port : Bytes) → Dict Bytes
mysql_map database name passwd url port =
    (codes "-database", value_or (codes "fidchain") database)
    ∷ (codes "-dbname", value_or (codes "fidchain") name)
    ∷ (codes "-dbpasswd", value_or (codes "123123") passwd)
    ∷ (codes "-dbport", value_or (codes "3306") port)
    ∷ (codes "-dburl", value_or (codes "127.0.0.1") url)
    ∷ (codes "database", [])
    ∷ []

-- The map after both sections.
abbrev full_map : (database name passwd url port user password address : Bytes) → Dict Bytes
full_map database name passwd url port user password address =
    (codes "-database", value_or (codes "fidchain") database)
    ∷ (codes "-dbname", value_or (codes "fidchain") name)
    ∷ (codes "-dbpasswd", value_or (codes "123123") passwd)
    ∷ (codes "-dbport", value_or (codes "3306") port)
    ∷ (codes "-dburl", value_or (codes "127.0.0.1") url)
    ∷ (codes "-rpcconnect", value_or (codes "139.224.13.20") address)
    ∷ (codes "-rpcpassword", value_or (codes "DSBs3pKSdpiTAPDms") password)
    ∷ (codes "-rpcuser", value_or (codes "fidchainrpc20") user)
    ∷ (codes "database", [])
    ∷ (codes "rpcuser", [])
    ∷ []

mysql_entries_lem :
    (m args : Dict Bytes) {database name passwd url port : Bytes}
    → lookup (codes "database") m ≡ some database
    → lookup (codes "dbname") m ≡ some name
    → lookup (codes "dbpasswd") m ≡ some passwd
    → lookup (codes "dburl") m ≡ some url
    → lookup (codes "dbport") m ≡ some port
    → insert_entries m mysql_entries args
      ≡ ok (
          insert (codes "-dbport") (value_or (codes "3306") port) (
            insert (codes "-dburl") (value_or (codes "127.0.0.1") url) (
              insert (codes "-dbpasswd") (value_or (codes "123123") passwd) (
                insert
                  (codes "-dbname")
                  (value_or (codes "fidchain") name)
                  (insert (codes "-database") (value_or (codes "fidchain") database) args)))))
mysql_entries_lem m args h₁ h₂ h₃ h₄ h₅ =
    step m _ _ args h₁
    ∙ (step m _ _ _ h₂ ∙ (step m _ _ _ h₃ ∙ (step m _ _ _ h₄ ∙ (step m _ _ _ h₅ ∙ no_entries m _))))

rpc_entries_lem :
    (r args : Dict Bytes) {user password address : Bytes}
    → lookup (codes "rpcuser") r ≡ some user
    → lookup (codes "rpcpasswd") r ≡ some password
    → lookup (codes "rpcconnect") r ≡ some address
    → insert_entries r rpc_entries args
      ≡ ok (
          insert (codes "-rpcconnect") (value_or (codes "139.224.13.20") address) (
            insert
              (codes "-rpcpassword")
              (value_or (codes "DSBs3pKSdpiTAPDms") password)
              (insert (codes "-rpcuser") (value_or (codes "fidchainrpc20") user) args)))
rpc_entries_lem r args h₁ h₂ h₃ =
    step r _ _ args h₁ ∙ (step r _ _ _ h₂ ∙ (step r _ _ _ h₃ ∙ no_entries r _))

module _ (m r : Dict Bytes) {database name passwd url port user password address : Bytes} where
  sections_lem :
      lookup (codes "database") m ≡ some database
      → lookup (codes "dbname") m ≡ some name
      → lookup (codes "dbpasswd") m ≡ some passwd
      → lookup (codes "dburl") m ≡ some url
      → lookup (codes "dbport") m ≡ some port
      → lookup (codes "rpcuser") r ≡ some user
      → lookup (codes "rpcpasswd") r ≡ some password
      → lookup (codes "rpcconnect") r ≡ some address
      → parse_sections ((codes "mysql", m) ∷ (codes "rpc", r) ∷ []) []
        ≡ ok (full_map database name passwd url port user password address)
  unfolding parse_sections parse_section insert get_or_add eq_bytes lt_bytes lookup assign
  sections_lem h₁ h₂ h₃ h₄ h₅ h₆ h₇ h₈ =
      ap
        (λ a.
          (a >>= λ args. ok (get_or_add (codes "database") args).1)
          >>= parse_sections ((codes "rpc", r) ∷ []))
        (mysql_entries_lem m [] h₁ h₂ h₃ h₄ h₅)
      ∙ ap (λ a. (a >>= λ args. ok (get_or_add (codes "rpcuser") args).1) >>= parse_sections [])
          (rpc_entries_lem r (mysql_map database name passwd url port) h₆ h₇ h₈)

  -- A file with its two sections, each with all its values, is read: the number of sections comes
  -- back, and the map that was empty before holds what the database and the RPC calls ask for: each
  -- value, or the value that stands for an empty one.
  pub parse_fidconfig-full :
      lookup (codes "database") m ≡ some database
      → lookup (codes "dbname") m ≡ some name
      → lookup (codes "dbpasswd") m ≡ some passwd
      → lookup (codes "dburl") m ≡ some url
      → lookup (codes "dbport") m ≡ some port
      → lookup (codes "rpcuser") r ≡ some user
      → lookup (codes "rpcpasswd") r ≡ some password
      → lookup (codes "rpcconnect") r ≡ some address
      → (args : Dict Bytes) × (parse_fidconfig (ok ((codes "mysql", m) ∷ (codes "rpc", r) ∷ [])) []
          ≡ ok (pos 2, args))
        × (config_login args ≡ record {
          database = value_or (codes "fidchain") database;
          address = value_or (codes "127.0.0.1") url;
          user = value_or (codes "fidchain") name;
          password = value_or (codes "123123") passwd;
          port = some (c_atoi (value_or (codes "3306") port));
        })
        × (get_fidconfig args (codes "-rpcuser") ≡ value_or (codes "fidchainrpc20") user)
        × (get_fidconfig args (codes "-rpcpassword")
            ≡ value_or (codes "DSBs3pKSdpiTAPDms") password)
        × (get_fidconfig args (codes "-rpcconnect") ≡ value_or (codes "139.224.13.20") address)
  unfolding parse_fidconfig config_login get_fidconfig lookup eq_bytes
  parse_fidconfig-full h₁ h₂ h₃ h₄ h₅ h₆ h₇ h₈ = (
    full_map database name passwd url port user password address,
    ap (λ a. a >>= λ args. ok (pos 2, args)) (sections_lem h₁ h₂ h₃ h₄ h₅ h₆ h₇ h₈),
    refl,
    refl,
    refl,
    refl,
  )
