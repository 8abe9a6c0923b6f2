-- ===== src/Lib.antt =====
-- The back end of shared-todos, backend/app: a web service where users keep to-do lists and share
-- them. A request passes the CSRF middleware, the session cookie tells who asks, each route of a
-- list asks for the caller's permission, and the handler reads and writes a SQL database. A
-- handler is a function from a session (the database, the writes that wait for a commit, and the
-- limiter's store) to a result or an error and a session.
--
-- Common: Booleans, lists, texts and integers that the parts share.
-- Http: what a handler raises, and chains of fallible steps.
-- Db: backend/app/models, backend/app/db/base.py and backend/alembic/versions. Db/Server is the
-- SQL server as a parameter, a record of statements with their documented meaning as laws;
-- Db/Memory meets them. Db/Schema has the tables, their constraints and `apply`, one write;
-- Db/Transaction has the session, `commit` and `run`, one request. Db/Tally, Db/Invariant and
-- Db/Keeps carry the reasoning: counts of rows, the invariant (Db/Invariant/Accounts has its part
-- on users), and rules for handlers. A Keeps file of a part applies them to its handlers.
-- Db/Metadata has the tables that the models declare, Db/Ddl the operations of alembic with what is
-- documented of those that the revisions use, Db/Migrations the four revisions and backend/alembic/env.py.
-- Authz: backend/app/authz. Permissions has the matrix, Dependencies `require_list_permission`.
-- Lists, Items, Shares: the routers and schemas of backend/app/lists, items and shares, a
-- function for each route, named as in the source.
-- Routes: the routes of one list together. `serve` is a whole request: the permission, then the
-- validation of the body, then the handler. Routes/Decisions has it as a function of the access
-- map.
-- Auth: backend/app/auth. RateLimiter, Csrf, Secrets (tokens.py, password.py), Cookies, Email,
-- Sessions (session.py, dependencies.py), router.py as Login, Register and PasswordReset, and
-- OAuth (oauth.py).
-- App: backend/app/main.py. `respond` in App/Service is a whole request to the application, of
-- any route: the CSRF middleware, then the handler in a database session of its own, then the
-- answer with its cookies. App/Gate is about what is stopped, App/Browser and App/Leaving about a
-- browser that keeps the cookies, App/Reachable about every state that requests can lead to, and
-- App/Single about queries for one row in these states.
-- Config: backend/app/config.py, the settings and their validation.
-- Logging: backend/app/logging_config.py.
--
-- A UUID and a point in time are natural numbers. Fresh ids, tokens, salts and the times of a
-- call are arguments. SHA-256 and argon2 are fields of the parameter `Crypto`. How a UUID is
-- written in a path is the parameter `show_id`. The signer of OAuth states, Google's answers, or
-- the exception in place of one, and the check of its tokens are the parameter `Google`. In
-- create_share, register, password_reset_complete and the callback from Google what others commit
-- between the reads and the commit is an argument; elsewhere a request is one step. Logins that
-- overlap at the limiter are a step relation of Auth/RateLimiter/Window/InFlight. A timestamp of
-- a row that the database stamps is the time of the call. The server that alembic works on, and
-- its options, are the parameters `Server` and `Options`; the laws of a server are about the
-- operations that it is given, and only where PostgreSQL carries them out. The order of rows is
-- left open unless a query asks for one. There is no fuel: the only recursion is on lists.
--
-- Not modelled: the delivery of mail, log output, reading the environment, the framework's parsing
-- of requests and the answers to paths that no route has, the pool of connections, the lengths of
-- columns at a write, and the cascades from users, whom no route deletes.
-- PostgreSQL refuses texts with the NUL character: a list's name or an item's content that has one
-- is an error of the write; emails, whose validation refuses it, and Google's texts are taken to
-- have none. A write to a row that is gone by then is an error, SQLAlchemy's StaleDataError.
mod Common
pub mod Http
pub mod Db
pub mod Authz
pub mod Lists
pub mod Logging
pub mod Items
pub mod Shares
pub mod Routes
pub mod Config
pub mod Auth
pub mod App
