-- ===== src/Db/Migrations/Env/Plain.antt =====
-- The migrations on a DATABASE_URL without percent signs.
use shared_todos.Common.{◌≡◌, String, true, false, Option, [], ◌∷◌, ◌++◌, nat_eq, string_eq, arith}
use shared_todos.Http.{ok}
use shared_todos.Config.{Settings}
use shared_todos.Db.Migrations.Env.{
  has_percent, Options, IsOptions, configure_url, connect, log_setup, in_transaction,
  do_run_migrations, close, dispose, run_migrations_offline, run_async_migrations, by_mode, env,
}

-- Where the URL has no percent sign, the migrations run once in either mode, in one transaction and
-- against the URL of the application.
pub env-plain :
    (o : Options) (settings : Settings) (config_file_name : Option String)
    → IsOptions o
    → has_percent settings.database_url ≡ false
    → (env o true config_file_name settings
        ≡ ok (
            log_setup config_file_name
            ++ configure_url settings.database_url true "named" ∷ in_transaction))
      × (env o false config_file_name settings
          ≡ ok (
              log_setup config_file_name
              ++ connect settings.database_url ∷ do_run_migrations
              ++ close ∷ dispose ∷ []))
unfolding env by_mode run_migrations_offline run_async_migrations
env-plain o settings config_file_name laws plain =
    let (t, stored, main, section) = laws.plain settings.database_url plain in
    (ground (arith, stored, main), ground (arith, stored, section))
