-- ===== src/Hub/Lifespan.antt =====
-- src/a2a_hub/app.py: `lifespan`, and src/a2a_hub/server.py: what `run` hands to uvicorn.
use a2a_hub.Prelude.{
  Bool, true, false, not, ◌&&◌, ◌||◌, ◌≡◌, refl, Option, none, some, List, [], ◌∷◌, ◌++◌, any,
  arith, if◌then◌else◌,
}
use a2a_hub.Prelude.Int.{ℤ}
use a2a_hub.Prelude.Text.{Str, codes, ◌==◌, eq_iff, eq_refl}
use a2a_hub.Json.{Json, bool, str, arr, array, obj, Fields, end, field, dict, get}
use a2a_hub.Config.Environment.{Settings}

-- what the application awaits in its life
pub data Act : Type 0 where
  create_agents create_marks serve close_handler dispose_engine : Act

-- whether an exception passes, after what was begun
pub record Life : Type 0 where
  pub raised : Bool
  pub begun : List Act

abbrev perform : (Act → Bool) → Act → List Act → Life
perform raises act begun = record { raised = raises act; begun = begun ++ act ∷ [] }

-- `first; second`
abbrev then_do : Life → (List Act → Life) → Life
then_do first second = let rest = second first.begun in if first.raised then first else rest

-- `try: body finally: cleanup`
abbrev finally_do : Life → (List Act → Life) → Life
finally_do body cleanup =
    let after = cleanup body.begun in
    record { raised = body.raised || after.raised; begun = after.begun }

module _ (raises : Act → Bool) where
  abbrev shut_down : List Act → Life
  shut_down begun = then_do (perform raises close_handler begun) (perform raises dispose_engine)

  abbrev serve_and_stop : List Act → Life
  serve_and_stop begun = finally_do (perform raises serve begun) shut_down

  -- the life of the application, `serve` being what happens while it is up
  unfoldable pub lifespan : Life
  lifespan =
      then_do (perform raises create_agents [])
        λ begun. then_do (perform raises create_marks begun) serve_and_stop

abbrev pub is_dispose : Act → Bool
is_dispose dispose_engine = true
is_dispose _ = false

abbrev pub is_serve : Act → Bool
is_serve serve = true
is_serve _ = false

module _ (raises : Act → Bool) where
  -- both tables could be created
  abbrev pub comes_up : Bool
  comes_up = not (raises create_agents) && not (raises create_marks)

  -- Whichever of its steps raise, the application serves exactly if the tables of the register and
  -- of the marks could be created; it comes to dispose of the engine exactly if, besides, the
  -- handler closed without an exception; and an exception passes exactly if a table could not be
  -- created, or serving, closing or disposing raised.
  pub lifespan_exact :
      (any is_serve (lifespan raises).begun ≡ comes_up)
      × (any is_dispose (lifespan raises).begun ≡ comes_up && not (raises close_handler))
      × ((lifespan raises).raised
          ≡ not comes_up || raises serve || raises close_handler || raises dispose_engine)
  unfolding lifespan
  lifespan_exact = ground arith

-- the arguments of `uvicorn.run` beside the application
pub record Launch : Type 0 where
  pub host : Str
  pub port : ℤ
  pub ssl_certfile : Option Str
  pub ssl_keyfile : Option Str
  pub log_config : Fields

-- `config[key] = value` in a dict
unfoldable pub put : Str → Json → Fields → Fields
put key value end = field key value end
put key value (field k v fields) =
    let later = put key value fields in if k == key then field k value fields else field k v later

abbrev pub hub_logger : Json
hub_logger = obj (
    dict (
      (codes "handlers", arr (array (str (codes "default") ∷ [])))
      ∷ (codes "level", str (codes "INFO"))
      ∷ (codes "propagate", bool false)
      ∷ []))

abbrev with_logger : Option Json → Fields → Option Fields
with_logger (some (obj loggers)) config =
    some (put (codes "loggers") (obj (put (codes "a2a_hub") hub_logger loggers)) config)
with_logger _ config = none

-- `_log_config` on uvicorn's own dict, which has an entry `loggers`
unfoldable pub log_config : Fields → Option Fields
log_config base = with_logger (get (codes "loggers") base) base

abbrev launch_with : Settings → Option Fields → Option Launch
launch_with settings none = none
launch_with settings (some config) = some (record {
  host = settings.host;
  port = settings.port;
  ssl_certfile = settings.tls_certfile;
  ssl_keyfile = settings.tls_keyfile;
  log_config = config;
})

-- `run`, on the settings and uvicorn's `LOGGING_CONFIG`
unfoldable pub run : Fields → Settings → Option Launch
run base settings = launch_with settings (log_config base)

-- the logger of a name in a logging config
abbrev pub logger_in : Str → Option Json → Option Json
logger_in name (some (obj loggers)) = get name loggers
logger_in name _ = none

get-put :
    (key other : Str) (value : Json) (fields : Fields)
    → get other (put key value fields) ≡ (if key == other then some value else get other fields)
unfolding get put
get-put key other value end = ground (arith, eq_iff key other)
get-put key other value (field k v fields) =
    ground (arith, eq_iff k key, eq_iff k other, eq_iff key other, get-put key other value fields)

abbrev loggers_of : Fields → Option Json
loggers_of config = get (codes "loggers") config

-- uvicorn's loggers are kept, and the hub's is added or replaced.
log_config_exact :
    (base loggers : Fields) (name : Str)
    → get (codes "loggers") base ≡ some (obj loggers)
    → (config : Fields) × (log_config base ≡ some config)
      × (logger_in name (get (codes "loggers") config)
          ≡ (if codes "a2a_hub" == name then some hub_logger else get name loggers))
unfolding log_config
log_config_exact base loggers name there = (
  put (codes "loggers") (obj (put (codes "a2a_hub") hub_logger loggers)) base,
  rw (log_config, there) refl,
  rw
      (get-put (codes "loggers") (codes "loggers") (obj (put (codes "a2a_hub") hub_logger loggers))
        base)
      (rw (eq_refl (codes "loggers")) (get-put (codes "a2a_hub") name hub_logger loggers)),
)
