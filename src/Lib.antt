-- ===== src/Lib.antt =====
-- A verification model of e-bank-api, a demo bank: a FastAPI service over a double-entry ledger.
--
-- Parts. A request passes the idempotency middleware and the authentication, then a route calls a
-- service over one database session; the session commits when the route returns and rolls back
-- when it raises.
--   Prelude, Prelude/*     Boolean tests, signed amounts (Int), tables of rows (Table).
--   Errors                 app/errors.py, app/core/exceptions.py.
--   Models, Models/*       app/models/*.py: rows and tables (Rows); the session as a state and
--                          exception monad, `get_db` of app/core/database.py (Session); what an
--                          action keeps (Keeps).
--   Ledger, Ledger/*       app/services/ledger.py: `post` with its checks (Checks), the loop over
--                          balances (Mirror), what it writes (Post), the three records of money
--                          (Balances, Mirrored).
--   Accounts, Accounts/*   app/repositories/account_repository.py.
--   Legacy, Legacy/*       app/services/account_service.py: the integer service.
--   Json                   values of json.loads, and the redaction of app/core/logger.py.
--   Canonical              app/core/idempotency.py: the canonical form of a payload.
--   Redis                  what the service uses of Redis: keys that expire, and faults.
--   Idempotency, Idempotency/*
--                          app/core/idempotency.py: the record, its dict (Codec), and the service's
--                          operations (Effects).
--   Middleware, Middleware/*
--                          app/middleware/idempotency_middleware.py: which requests are guarded,
--                          each branch at a key (Guarded), what is answered from records
--                          (Once), and what is left of a request that is refused (Refused).
--   Validation, Validation/*
--                          app/domain/validation.py: documents (Documents, CheckDigits), ages
--                          (Ages).
--   Money                  app/domain/money.py.
--   OnboardingAccounts, OnboardingAccounts/*
--                          app/services/onboarding_accounts.py, app/services/account_number.py:
--                          which account a call means, and new account numbers (Numbers).
--   Recipients             app/services/recipient.py.
--   Transfers, Transfers/* app/services/transfer.py: which accounts a transfer may touch (Guards),
--                          what it does to balances (Effect), what it keeps (InSync).
--   Auth, Auth/*           app/auth/oidc.py, app/auth/deps.py: the principal of a request, and who
--                          passes the check of a writing route (Granted).
--   RateLimit              app/core/rate_limit.py.
--   Prelude/Texts          the slices of texts.
--   Users, Users/*         app/repositories/user_repository.py: users, onboarding sessions
--                          (Sessions), documents, consents.
--   Onboarding, Onboarding/*
--                          app/services/onboarding_service.py: the wizard, what it leaves of a
--                          document's summary (Redaction), what a start does (Started).
--   Applications           app/services/onboarding_complete.py: the check of an application.
--   Completion, Completion/*
--                          app/services/onboarding_complete.py: the end of the wizard and the
--                          welcome grant (Welcome).
--   Queries, Queries/*     app/repositories/account_repository.py: accounts of an owner, pages of
--                          transactions (Pages, Newest, Cursor), a client that reads all pages with
--                          the cursor of app/api/demo.py (Pager), sums (Sums), removal of all rows.
--   Presentation           app/services/statement_present.py: what a row shows.
--   Filters, Filters/*     app/services/demo_service.py: a request's filters (Types).
--   Statements, Statements/*
--                          app/services/demo_service.py: the list, one transaction, the export and
--                          its balances (Running, Closing), and whose rows are shown (Owned).
--   DemoBank, DemoBank/*   app/services/demo_service.py: accounts, and withdrawals (Withdrawals).
--   Events                 app/api/legacy.py, app/schemas: the routes of the integer service.
--   Schemas                app/schemas/__init__.py: the bodies of the demo routes.
--   PostalCodes            app/services/cep.py.
--   Routes, Routes/*       app/api: a request at its route (Answers, Serve), with the limiter and
--                          the database session (Within); what it does there (Steps), what a
--                          route that raises leaves (Undone, Atomic), and a used up limit
--                          (Limited).
--   Receipts, Receipts/*   app/services/statement_storage.py, and the receipts of
--                          app/services/demo_service.py, which stay what they were (Kept).
--   StatementFiles         app/services/statement_export.py.
--   Migrations, Migrations/*
--                          alembic/versions: balances that become transactions (0002, Deposits),
--                          new ids of accounts (0005, Left, Renaming), statuses (0011, Restored).
--   Handlers               app/api/exception_handlers.py: the answers to exceptions.
--   Assembly               app/core/config.py, app/main.py: settings, and the checks of the start.
--   Application, Application/*
--                          app/main.py: the middleware before the routes, what a refused request
--                          leaves (Refusals), who changes a table in production (Production).
--   Routine, */Kept        an interface: what the services do to the tables, one kind of change at
--                          a time; a property that each kind keeps, every service keeps (Kept).
--   Requests, Requests/*   requests as steps between databases, and what holds of every database
--                          that they lead to (Reachable, Ordered, Statements).
--   Tests, Tests/*         runs at concrete inputs, and instances of the theorems.
--
-- Modelling. A money amount is a signed whole number of hundredths (Prelude/Int), the scale of the
-- columns Numeric(18, 2); the bound of 18 digits and the 28 digits of Python's decimal context are
-- not modelled. A table is the list of its rows in insertion order. A coroutine is a function from
-- the tables to an outcome and the tables, so what was written before a raise is seen, and requests
-- run one after another: a row lock reads the row. What other transactions can do between the
-- lookup of an idempotency key and the insert of the journal is the parameter `Env.raced`; behind a
-- failed flush a query raises PendingRollbackError, as SQLAlchemy documents it; `uuid4` and
-- `secrets.randbelow` are `Env.uuid` and `Env.randbelow`; which of two sessions of one time a query
-- puts first is `Db.sessions_first`. Loops run over lists; only
-- the client of Queries/Pager has fuel, one more than there are rows. Time is a number that no
-- request changes.
-- Redis is a map from keys to a value and the time at which it expires, with a list of the faults
-- of the coming commands; the digest of a request, `str` of a value and the clock's text are
-- parameters (`Config`), as are decimals and Unicode texts (`Settings`, `Texts`). Constraints that
-- the flush enforces and the model has: the primary key of accounts and their unique numbers, the
-- unique key of journals, the foreign keys of postings, transactions and owners.
-- S3 is a map from keys to files with a list of faults; the file of a receipt and the lines of a
-- CSV file are made by parameters (`Files`, `Sheet`), and the bodies of answers by `App`. Logging
-- is left out.
--
-- Not modelled: the routing and the JSON of FastAPI and Starlette, CORS, SQL text, the layout of
-- PDF files (an exported PDF ends with the statement that its layout is given, a receipt is made by
-- a parameter), JWKS discovery, the reading of settings and secrets, log lines, the
-- lengths of columns, the table of demo grants, which no service uses, a limit of rows below
-- zero, what the migrations do to tables and columns, and the statements of migration 0005 for
-- PostgreSQL.
pub mod Prelude
pub mod Errors
pub mod Models
pub mod Ledger
pub mod Accounts
pub mod Legacy
mod Tests
pub mod Json
pub mod Redis
pub mod Canonical
pub mod Idempotency
pub mod Middleware
pub mod Validation
pub mod Money
pub mod OnboardingAccounts
pub mod Recipients
pub mod Users
pub mod Onboarding
pub mod Applications
pub mod Completion
pub mod Queries
pub mod Presentation
pub mod Filters
pub mod Statements
pub mod DemoBank
pub mod Transfers
pub mod Auth
pub mod RateLimit
pub mod Events
pub mod Routine
pub mod Requests
pub mod Schemas
pub mod PostalCodes
pub mod Receipts
pub mod StatementFiles
pub mod Routes
pub mod Handlers
pub mod Assembly
pub mod Application
pub mod Migrations
