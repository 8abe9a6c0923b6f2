-- ===== src/Logging.antt =====
-- app/logging_config.py, which app/main.py calls when it is loaded.
use shared_todos.Common.{String, ◌≡◌, refl, List, [], ◌∷◌, ◌==◌, string_eq, if◌then◌else◌, arith}

pub data Level : Type 0 where
  notset : Level
  debug : Level
  info : Level
  warning : Level

-- a `StreamHandler`, with its `Formatter`
pub record Handler : Type 0 where
  pub stream : String
  pub level : Level
  pub fmt : String
  pub datefmt : String

-- the root logger, and the levels of the others
pub record Loggers : Type 0 where
  pub root_level : Level
  pub root_handlers : List Handler
  pub level : String → Level

abbrev pub stdout_handler : Handler
stdout_handler = record {
  stream = "stdout";
  level = debug;
  fmt = "%(asctime)s %(levelname)-8s %(name)s: %(message)s";
  datefmt = "%Y-%m-%dT%H:%M:%S";
}

-- `logging.getLogger(name).setLevel(level)`
abbrev pub set_level : String → Level → (String → Level) → String → Level
set_level name l levels other = if other == name then l else levels other

abbrev with_handlers : List Handler → Loggers → Loggers
with_handlers [] loggers = record {
  root_level = info;
  root_handlers = stdout_handler ∷ [];
  level = set_level "uvicorn.access" warning (set_level "sqlalchemy.engine" warning loggers.level);
}
with_handlers (handler ∷ handlers) loggers = record loggers { root_level = info }

unfoldable pub configure_logging : Loggers → Loggers
configure_logging loggers = with_handlers loggers.root_handlers loggers

-- A second call changes nothing, so no handler is there twice.
configure_logging-idempotent :
    (loggers : Loggers) → configure_logging (configure_logging loggers) ≡ configure_logging loggers
unfolding configure_logging
configure_logging-idempotent loggers = again loggers.root_handlers refl
  where
    again :
        (handlers : List Handler)
        → loggers.root_handlers ≡ handlers
        → configure_logging (configure_logging loggers) ≡ configure_logging loggers
    again [] h = ground (arith, h)
    again (handler ∷ handlers) h = ground (arith, h)
