-- ===== src/Lib.antt =====
-- The Swooshz platform: sign-in, workspaces, apps and the right to launch them.
--
-- The platform is a TypeScript server over Postgres. Services (src/platform) work on ports
-- (src/platform/repositories.ts), which the Drizzle repositories (src/db/repositories.ts) implement by
-- SQL statements. This library models the data, the pure launch decision, the repositories, the
-- services for access, administration, launch tokens and validation grants, sign-in (src/auth) and the
-- protection of requests (src/http), and proves what they promise together.
--
-- Which file models what:
--   Base                shared tests, lists, counting, sorting and texts
--   Time, Errors, Io    timestamps as Date.parse reads them; error classes; asynchronous calls that
--                       throw, as state passing, and triples for them
--   Accounts            src/accounts/types.ts and src/apps/types.ts
--   Access              decideAppAccess of src/access/decide-app-access.ts; Access.Sound describes it
--   Ports               src/platform/repositories.ts, one record for each repository
--   Driver              drizzle-orm and Postgres, a parameter with the laws of SQL: what a select,
--                       insert, update or delete returns and leaves, up to the order of the rows, and
--                       that an attempt of a transaction commits as a whole or changes nothing
--   Db                  src/db/repositories.ts over the driver (Identity, Workspaces, Apps); the
--                       unique indexes of src/db/schema.ts (Statements, Keyed); the retries of a
--                       serializable transaction (Repositories); triples for statements (Triples, Rows)
--   Services.AppAccess  decidePlatformAppAccess and decideProtectedAppAccess
--   Services.Admin      src/platform/workspace-admin-service.ts: the authorization and the helpers;
--                       Members, Approvals and Entitlements hold the operations; Step is the abstract
--                       relation on memberships, Authorized says who may administer, Refines takes
--                       each operation to a step, Commands, History, Invariant and Log treat
--                       sequences
--   Services.SessionContext   src/platform/session-context-service.ts; Shown on what it shows
--   Services.Launch     createAppLaunchIntent; Services.Launch.Consume consumeAppLaunchToken and
--                       issueAccessValidationGrant; Commands puts them on the database, Spent, Keeps,
--                       Refused, FirstUse and SingleUse show that a token is used once
--   Services.Grants     src/platform/access-validation-grant-service.ts; Commands puts it on the
--                       database, Sealed, Keeps and Spent follow a grant through its writes, Over,
--                       Live and Registered hold the results
--   Csrf, Db.Csrf       src/http/csrf-token-repositories.ts and src/db/csrf-token-repository.ts;
--                       Db.Csrf.Bound treats the bounded insert
--   AuthStates          the records of src/auth/callback.ts and src/auth/auth-state-repositories.ts;
--                       Db.AuthStates is src/db/auth-state-repository.ts, with Once and Bound on it
--   Auth.Resolver       src/auth/platform-identity-resolver.ts: its data and tests, then Approved and
--                       SignIn; Stored puts it on the database, Admitted and Undone hold the results
--   Auth.Callback       src/auth/callback-service.ts and the parsing in src/auth/callback.ts; Proper on
--                       what a callback that completes rests on
--   Auth.Sessions       src/auth/session-revocation-service.ts; Over on what a revoked session can do
--   Http.CsrfTokens     src/http/csrf-token-service.ts; Issued, Later and Valid take issue and check
--                       together
--   Http                Patterns, Headers and Origin (src/http/origin-validation.ts), with
--                       Origin.Verdict on what it answers; RequestSecurity (src/http/csrf.ts and src/http/request-security.ts), with Protected on what a
--                       request that passes has, and Answers on its always answering
--   Tests               a driver on lists, a small platform and runs on it
--
-- State and errors. A call takes the database and returns a value or a thrown error with the database
-- that it left; what was written before a throw stays, unless a transaction undoes it. An operation of
-- the admin service is a whole transaction, so that histories are sequences of operations. Which
-- statement throws, and when, is left to the driver.
--
-- Bounds. Times are milliseconds from the earliest date of JavaScript; the latest date is a bound of
-- toISOString. The loop of retries is recursion on the number of attempts that are left, two after the
-- first, as in the source. The list of allowed origins and the loops over rows are recursion on lists.
--
-- Parameters: toLowerCase, what `new URL(value).origin` gives or throws, the order of localeCompare on ids, hashes and random
-- sources, and the driver.
--
-- Not modelled: invitations, which no service uses; listings and summaries of the admin service;
-- the session cookie; markup, HTTP adapters and start-up; OIDC verification,
-- which calls libraries and whose two calls are ports; Postgres catalogue checks. Foreign keys are not
-- stated, since no property needs them.
pub mod Base
pub mod Time
pub mod Errors
pub mod Io
pub mod Accounts
pub mod Access
pub mod Ports
pub mod Csrf
pub mod AuthStates
pub mod Driver
pub mod Db
pub mod Services
pub mod Http
pub mod Auth
pub mod Tests
