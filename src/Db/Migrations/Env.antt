-- ===== src/Db/Migrations/Env.antt =====
-- alembic/env.py, which alembic runs before the revisions.
pub mod Plain
use shared_todos.Common.{
  ℕ, ◌≡◌, refl, ap, ◌∙◌, String, Bool, true, false, not, ◌||◌, Option, none, some, List, [], ◌∷◌,
  ◌++◌, ◌==◌, nat_eq, char_code, if◌then◌else◌, arith,
}
use shared_todos.Http.{Result, ok, err, value_error, ◌>>=◌}
use shared_todos.Config.{Settings, load}

-- is there a percent sign in the text? Its code is 37.
unfoldable pub has_percent : String → Bool
has_percent String.[] = false
has_percent (String.◌∷◌ c s) = char_code c == 37 || has_percent s

-- alembic's `Config`, over a parser of option files: an option is stored and read back.
pub record Options : Type 1 where
  pub Stored : Type 0
  pub set_main_option : String → Result Stored
  pub get_main_option : Stored → Result String
  -- the URL of `config.get_section(…)`
  pub url_of_section : Stored → Result String

-- As documented: a text without percent signs has no interpolation.
pub record IsOptions (o : Options) : Type 0 where
  pub plain :
      (text : String)
      → has_percent text ≡ false
      → (t : o.Stored) × (o.set_main_option text ≡ ok t)
        × (o.get_main_option t ≡ ok text)
        × (o.url_of_section t ≡ ok text)

-- the calls of alembic and of the engine, in their order
pub data Step : Type 0 where
  file_config : String → Step
  -- `literal_binds`, `paramstyle`
  configure_url : String → Bool → String → Step
  connect : String → Step
  configure_connection : Step
  begin_transaction : Step
  run_migrations : Step
  end_transaction : Step
  close : Step
  dispose : Step

abbrev in_transaction : List Step
in_transaction = begin_transaction ∷ run_migrations ∷ end_transaction ∷ []

unfoldable pub do_run_migrations : List Step
do_run_migrations = configure_connection ∷ in_transaction

abbrev log_setup : Option String → List Step
log_setup none = []
log_setup (some name) = file_config name ∷ []

module _ (o : Options) where
  unfoldable pub run_migrations_offline : o.Stored → Result (List Step)
  run_migrations_offline stored = do
    url ← o.get_main_option stored
    ok (configure_url url true "named" ∷ in_transaction)

  unfoldable pub run_async_migrations : o.Stored → Result (List Step)
  unfolding do_run_migrations
  run_async_migrations stored = do
    url ← o.url_of_section stored
    ok (connect url ∷ do_run_migrations ++ close ∷ dispose ∷ [])

  by_mode : Bool → o.Stored → Result (List Step)
  by_mode true stored = run_migrations_offline stored
  by_mode false stored = run_async_migrations stored

  -- the module: `context.is_offline_mode()` and `config.config_file_name` are arguments
  unfoldable pub env : Bool → Option String → Settings → Result (List Step)
  unfolding by_mode
  env offline config_file_name settings = do
    stored ← o.set_main_option settings.database_url
    steps ← by_mode offline stored
    ok (log_setup config_file_name ++ steps)
