-- ===== src/Examples/Starting.antt =====
-- A start from an environment, and the migration of a table.
use a2a_hub.Prelude.{◌≡◌, refl, all, true, false, some, [], ◌∷◌}
use a2a_hub.Prelude.Int.{pos}
use a2a_hub.Prelude.Number.{parse_int}
use a2a_hub.Prelude.Text.{codes, ◌==◌, mem, strip, lstrip, rstrip, is_space, split, partition}
use a2a_hub.Environ.{Env, value_of}
use a2a_hub.Config.{entry_of, assign, parse_from, parse_tokens}
use a2a_hub.Config.Environment.{from_env}
use a2a_hub.Hub.{App, create_app, agents_of}
use a2a_hub.Hub.Startup.{start_app}
use a2a_hub.Schema.{
  Column, no_default, plain_text, no_text, Table, Database, columns_of, add_columns,
  add_missing_columns, alter_table, alter_all,
}
use a2a_hub.Schema.Complete.{
  fits_table, succeeds-add_missing_columns, IsDistinct, model_of, succeeds,
}
use a2a_hub.Schema.Again.{nothing_to_do, add_missing_columns_again}

abbrev env : Env
env = (codes "A2A_HUB_TOKENS", codes "t1:ana, t2:bob") ∷ (codes "A2A_HUB_PORT", codes "8080") ∷ []

abbrev app : App
app = record {
  tokens = (codes "t1", codes "ana") ∷ (codes "t2", codes "bob") ∷ [];
  rpc_url = codes "/";
  max_body_bytes = pos 1048576;
  known_agents = codes "ana" ∷ codes "bob" ∷ [];
}

started : start_app (from_env env) ≡ some app
unfolding start_app from_env value_of parse_tokens parse_from entry_of assign parse_int create_app
    agents_of ◌==◌ strip lstrip rstrip is_space split partition
started = refl

abbrev identity_column : Column
identity_column = record {
  name = codes "identity";
  nullable = false;
  server_default = no_default;
  ddl = codes "VARCHAR(255)";
}

abbrev retired_column : Column
retired_column = record {
  name = codes "retired_at";
  nullable = true;
  server_default = no_default;
  ddl = codes "DATETIME";
}

abbrev pub registrations : Table
registrations = record {
  name = codes "agent_registrations";
  columns = identity_column ∷ retired_column ∷ [];
}

-- the table before it had `retired_at`
abbrev pub old_database : Database
old_database = (record { name = codes "agent_registrations"; columns = codes "identity" ∷ [] }) ∷ []

pub one_table : IsDistinct (registrations ∷ [])
unfolding model_of
one_table = (refl, tt)

migrates : succeeds (add_missing_columns (registrations ∷ []) old_database).error ≡ true
unfolding add_missing_columns columns_of add_columns ◌==◌ mem
migrates = refl

migrated_test :
    columns_of
      (codes "agent_registrations")
      (alter_all (add_missing_columns (registrations ∷ []) old_database).executed old_database)
    ≡ some (codes "identity" ∷ codes "retired_at" ∷ [])
unfolding columns_of alter_all alter_table add_missing_columns add_columns ◌==◌ mem
migrated_test = refl

add_missing_columns_again_example :
    add_missing_columns
      (registrations ∷ [])
      (alter_all (add_missing_columns (registrations ∷ []) old_database).executed old_database)
    ≡ nothing_to_do
add_missing_columns_again_example =
    add_missing_columns_again (registrations ∷ []) old_database one_table migrates

-- `Column("role", String(32), nullable=False, server_default="")`
abbrev role_column : Column
role_column = record {
  name = codes "role";
  nullable = false;
  server_default = plain_text [];
  ddl = codes "VARCHAR(32)";
}

plain_default_test :
    add_missing_columns
      ((record { name = codes "agent_registrations"; columns = role_column ∷ [] }) ∷ [])
      old_database
    ≡ record { executed = []; error = some (no_text (codes "agent_registrations") (codes "role")) }
unfolding add_missing_columns columns_of add_columns ◌==◌ mem
plain_default_test = refl

succeeds-add_missing_columns_example :
    succeeds (add_missing_columns (registrations ∷ []) old_database).error
    ≡ all (fits_table old_database) (registrations ∷ [])
succeeds-add_missing_columns_example =
    succeeds-add_missing_columns (registrations ∷ []) old_database
