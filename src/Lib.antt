-- ===== src/Lib.antt =====
-- The banking application of this repository, ssql_tests/mobile-banking-app: its HTTP routes, its
-- client of the database's JSON-RPC server, its sessions, its pages and its notifications. Beside it, the
-- backend and the page of the marketplace, ssql_tests/nft-marketplace-backend, and the scripts of
-- js-scripts: the test of the database (app.js), a migration and the creation of a database.
--
-- The parts and how they interact. A page calls a route with `authFetch` (lib/authFetch.ts), which
-- puts the token of the session into a header. A route (app/api/**/route.ts) finds its user with
-- `getUserIdFromRequest` (lib/auth.ts), reads and writes the database with `executeQuery` and
-- `executeWriteQuery` (lib/wwfsdb.ts), and answers with JSON. Pages show notifications with `toast`
-- (hooks/use-toast.ts).
--
-- The marketplace has routes of its own (routes/api.js) around its own client (services/wwfsdb.js) of the
-- same server.
--
-- Which file models which part (paths below ssql_tests/mobile-banking-app):
--   Base            shared names, lists, and the integers of the examples' balances
--   Js              the language: values (Value), conversions (Convert), what the packages and the
--                   outside provide (Runtime), and statements that may throw (Action)
--   Rpc             lib/wwfsdb.ts
--   Http            requests and the responses that `NextResponse.json` makes
--   Auth            lib/auth.ts and the header of lib/authFetch.ts
--   Api.Guard       what the routes have in common: the check of the user, the `catch` with its 500
--   Api.Transfer    app/api/transfer, `transfer_post` = POST
--   Api.Settings, Support, Beneficiaries, Profile, SecurityLogs, Cards, Transactions, Accounts
--                   the routes of these names, `<name>_get` = GET and so on
--   Api.Loans, LoanPayments  app/api/loans and app/api/loans/[loanId]/payments
--   Api.Dashboard   app/api/dashboard/stats
--   Api.Login, Register  app/api/auth/login and app/api/auth/register
--   Api.Endpoint    all handlers under one name each
--   Toast           hooks/use-toast.ts, of which components/ui/use-toast.ts is a copy
--   UseMobile       hooks/use-mobile.ts, of which components/ui/use-mobile.tsx is a copy
--   Pages           app/(auth) and app/(dashboard): one module for each page.tsx, with what they share
--                   in Pages; components/*-card.tsx in Pages.Display, navigation.tsx in Pages.Navigation
--   Market          services/wwfsdb.js (Client), routes/api.js (Routes) and public/script.js (Page) of the
--                   marketplace
--   Scripts         js-scripts/app.js of the repository: its client (`send_query`), how it compares rows
--                   (Compare) and counts (Checks), its lists of statements (Suites), the creation of the
--                   database (Setup), sessions (Transactions) and the whole run (Main);
--                   js-scripts/migrate_ssql_example.js (Migration) and createdb.js (CreateDb)
--   Examples        a small run time in which every result is applied
--
-- How it is modelled. A handler is a function from the state of the world to a result, or a thrown
-- error, and a new state. The state holds `server`, all that is outside the process (the RPC server
-- with its databases and other clients, the clock, the random source), the requests that were sent to
-- the RPC server, the last one first, and the tags of what was written to the console. Every `await`
-- is a step of this state. A long handler is cut into one function for each stretch of it that ends
-- in a check. Loops are recursion on the list that they walk; no definition needs fuel.
--
-- A page is a record of its React states. A handler that awaits `fetch` is cut in two: the request that
-- it sends, and what it does when it is answered, which takes the page of the render that the handler
-- belongs to (its closure) beside the page as it is then. What is shown is a function of the page where
-- the page computes something for it: a record of the values and texts that go into the markup (View),
-- without the elements themselves. The texts of a locale are a parameter (`Locale`).
--
-- A script is a state of its counters, its next identifier and what it has posted, newest first. A list
-- of calls of the same check is a list of records that one function walks.
--
-- What is a parameter. `Runtime` holds the numbers with their arithmetic and their texts, the packages
-- jsonwebtoken, bcryptjs, uuid and axios, the clock, `Math.random` and `JSON.parse`. No law of them is
-- assumed but where a result has a `StillValid`: that a token of jsonwebtoken verifies, until it expires, to
-- a payload with the user that was signed, is not empty and has only characters that a header may hold, no
-- white space. What the server does with a statement is not assumed: a result says what was sent, and
-- what was answered. A page takes the body of an answer as its `json()` gives it.
-- `toLowerCase` and the text that `JSON.stringify` makes of a user are arguments of the pages,
-- `toUpperCase`, the signature of node:crypto, `http.request` and the time-out are those of the scripts
-- (`Node`), without a law.
--
-- What is not modelled: the Go engine and its server (behind `Runtime.post`), the elements of the
-- pages, their layouts, the component kit, and js-scripts/test_api.js, which prints four answers without
-- a look at them. The values that a route gets are those of JSON, so that there are no getters,
-- no prototypes but the names that every object inherits, and no `toString` of an object's own. What
-- the marketplace's page shows of rows that are texts or arrays, which no table has, is a parameter.
-- The four queries of the dashboard that run side by side are sent in the order of the code. Of a
-- log line the tag is kept. The extra properties of a toast are a parameter type.
pub mod Base
pub mod Js
pub mod Rpc
pub mod Http
pub mod Auth
pub mod Api
pub mod Toast
pub mod UseMobile
pub mod Scripts
pub mod Pages
pub mod Market
pub mod Examples
