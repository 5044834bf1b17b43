-- ===== src/Config/Environment.antt =====
-- src/a2a_hub/config.py: `Settings` and `from_env`.
use a2a_hub.Prelude.{Option, none, some, [], ◌++◌, if◌then◌else◌}
use a2a_hub.Prelude.Int.{ℤ}
use a2a_hub.Prelude.Number.{parse_int}
use a2a_hub.Prelude.Text.{Str, codes, is_empty}
use a2a_hub.Environ.{Env, value_of, or_default}
use a2a_hub.Auth.Tokens.{TokenTable}
use a2a_hub.Config.{Parsed, parsed, parse_tokens}

pub record Settings : Type 0 where
  pub tokens : TokenTable
  pub db_url : Str
  pub public_url : Str
  pub rpc_url : Str
  pub host : Str
  pub port : ℤ
  pub tls_certfile : Option Str
  pub tls_keyfile : Option Str
  pub max_body_bytes : ℤ

-- the settings, or one of the `ValueError`s
pub data Configured : Type 0 where
  configured : Settings → Configured
  bad_tokens : Parsed → Configured
  bad_number : (value : Str) → Configured

-- `value or None`
abbrev or_none : Option Str → Option Str
or_none none = none
or_none (some value) = if is_empty value then none else some value

abbrev sqlite_url : Str → Str
sqlite_url path = codes "sqlite+aiosqlite:///" ++ path

abbrev db_url_of : Str → Option Str → Str
db_url_of path none = sqlite_url path
db_url_of path (some url) = if is_empty url then sqlite_url path else url

module _ (env : Env) where
  abbrev setting : Str → Str → Str
  setting name default = or_default default (value_of name env)

  abbrev pub port_text : Str
  port_text = setting (codes "A2A_HUB_PORT") (codes "8000")

  abbrev pub max_text : Str
  max_text = setting (codes "A2A_HUB_MAX_BODY_BYTES") (codes "1048576")

  abbrev pub with_numbers : TokenTable → Option ℤ → Option ℤ → Configured
  with_numbers tokens none max_body_bytes = bad_number port_text
  with_numbers tokens (some port) none = bad_number max_text
  with_numbers tokens (some port) (some max_body_bytes) = configured (record {
    tokens = tokens;
    db_url =
        db_url_of (setting (codes "A2A_HUB_DB_PATH") (codes "a2a-hub.db"))
          (value_of (codes "A2A_HUB_DB_URL") env);
    public_url = setting (codes "A2A_HUB_PUBLIC_URL") (codes "http://localhost:8000/");
    rpc_url = setting (codes "A2A_HUB_RPC_URL") (codes "/");
    host = setting (codes "A2A_HUB_HOST") (codes "0.0.0.0");
    port = port;
    tls_certfile = or_none (value_of (codes "A2A_HUB_TLS_CERTFILE") env);
    tls_keyfile = or_none (value_of (codes "A2A_HUB_TLS_KEYFILE") env);
    max_body_bytes = max_body_bytes;
  })

  abbrev pub with_tokens : Parsed → Configured
  with_tokens (parsed tokens) = with_numbers tokens (parse_int port_text) (parse_int max_text)
  with_tokens error = bad_tokens error

  unfoldable pub from_env : Configured
  from_env = with_tokens (parse_tokens (setting (codes "A2A_HUB_TOKENS") []))
