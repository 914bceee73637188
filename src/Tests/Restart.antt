-- ===== src/Tests/Restart.antt =====
-- The program that starts again with six blocks in its database.
use fidinventor.Base.{ℕ, ◌+◌, ◌≡◌, refl, List, [], ◌∷◌, arith, pos}
use fidinventor.Base.Text.{Bytes, codes, eq_bytes, lt_bytes}
use fidinventor.Base.Dict.{Dict, lookup, get_or_add, insert, assign}
use fidinventor.Base.Result.{ok}
use fidinventor.Args.{i64tostr}
use fidinventor.Config.{default_config}
use fidinventor.Db.Session.{init_db, query_block_count}
use fidinventor.Db.Laws.{sending}
use fidinventor.Task.Types.{task_block_or_trans}
use fidinventor.Task.Schedule.{Registry, get_task}
use fidinventor.Task.Registry.{registered}
use fidinventor.Task.Gensis.{Fetched, rows_of}
use fidinventor.Task.Follow.{FollowedFrom}
use fidinventor.Main.{Begun, begin_main, exits, goes_on}
use fidinventor.Main.Restart.{restart_leaves_gap}
use fidinventor.Tests.Programs.{day, opened}
use fidinventor.Tests.Systems.{
  six_server, six_NeverFails, nine_env, nine_HasSmallCounts, seventh_world, seventh_steps,
}

abbrev pub first_registry : Registry
first_registry = record { tasks = []; sequence = pos 1 }

-- Without the name of a configuration, the program exits.
no_file :
    begin_main six_server (pos 0) 1 (ok default_config) [] [] opened first_registry
    ≡ ok (exits (pos 1))
unfolding begin_main
no_file = refl

abbrev pub default_args : Dict Bytes
default_args =
    (codes "-database", codes "fidchainblock")
    ∷ (codes "-dbname", codes "fidchain")
    ∷ (codes "-dbpasswd", codes "123123")
    ∷ (codes "-dbport", codes "3306")
    ∷ (codes "-dburl", codes "127.0.0.1")
    ∷ (codes "-rpcconnect", codes "139.224.13.20")
    ∷ (codes "-rpcpassword", codes "DSBs3pKSdpiTAPDms")
    ∷ (codes "-rpcuser", codes "fidchainrpc20")
    ∷ (codes "database", [])
    ∷ (codes "rpcuser", [])
    ∷ []

abbrev with_six : Begun ℕ
with_six = record {
  args = default_args;
  seq = pos 1;
  height = pos 7;
  session = opened;
  registry = record {
    tasks = registered (pos 0) task_block_or_trans (i64tostr (pos 7)) (pos 1) ∷ [];
    sequence = pos 2;
  };
}

begins_at_seven :
    begin_main six_server (pos 0) 2 (ok default_config) [] [] opened first_registry
    ≡ ok (goes_on with_six)
unfolding begin_main eq_bytes lookup query_block_count init_db get_or_add insert assign lt_bytes
begins_at_seven = refl

restart_leaves_gap_example :
    (pos 7 ≡ pos (6 + 1))
    × (fetched : List (Fetched ℕ)) × FollowedFrom nine_env (6 + 1) fetched
    × (seventh_world.session
        ≡ sending (init_db six_server default_args opened).1 (rows_of day fetched))
unfolding init_db query_block_count get_task
restart_leaves_gap_example =
    restart_leaves_gap nine_env six_NeverFails nine_HasSmallCounts (pos 0) 2 (ok default_config) []
      [] opened first_registry [] 6 (omega arith) (omega arith) begins_at_seven refl seventh_steps
