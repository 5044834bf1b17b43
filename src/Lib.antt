-- ===== src/Lib.antt =====
-- a2a-hub: a mailbox server between agents over the A2A protocol.
--
-- A request passes the size guard and the bearer guard of `a2a_hub/auth.py`, which give it an
-- identity `principal/session`. `SendMessage` runs the executor of `a2a_hub/executor.py`, which
-- routes the message to the mailbox of its recipient; `GetTask` and `ListTasks` read the mailboxes
-- of the caller through `a2a_hub/store.py`; the routes of `a2a_hub/routes_marks.py` record in the
-- table of `a2a_hub/marks.py` what became of a message; the guard stamps the register of
-- `a2a_hub/registry.py`, where agents declare themselves. `.github/scripts` prunes the image registry.
-- `a2a_hub/app.py` puts these together, on the settings of `a2a_hub/config.py` and a database that
-- `a2a_hub/schema.py` brings up to date; `a2a_hub/client.py` is the command line client of an agent.
-- The Python package is `src/a2a_hub` in the repository.
--
-- - Prelude: the shared names. A text (`Str`) is the list of its code points; `strip`,
--   `partition` and `split` are Python's, `lower` is on ASCII letters alone and `int()`
--   (Prelude/Number) on ASCII digits.
-- - Json: decoded JSON, with `bool(v)` and `str(v)`.
-- - Auth: `src/a2a_hub/auth.py`. Identity has `SESSION_PATTERN`, `principal_of` and
--   `is_valid_identity`; Tokens has `TokenRegistry` and `_extract_bearer`; Refusal, Bearer, Body and
--   Headers have `refusal`, `BearerAuthMiddleware`, `MaxBodySizeMiddleware` and
--   `RedactingContextBuilder`. A middleware is a function from the state to an outcome and a state.
--   Session, Trimmed, Gate, Lookup and Address hold the theorems.
-- - Executor: `src/a2a_hub/executor.py`, `execute` as `process` and `route` on a `Run` that holds the
--   call's context, the events with the owner in force at each, and the log. Executor/Delivery holds
--   the theorems.
-- - Store: `HubTaskStore` of `src/a2a_hub/store.py`, with its reads in Store/Reading and `list` in
--   Store/Listing. The SDK's store is the parameter `Sdk`. `list` is modelled with a cursor whose
--   text is the parameter `Codec`; Order, Pages, Steps, Growth and Walk lead to the theorem on
--   reading a listing page by page. The laws asked of the SDK (`IsPaged`) and of the encoding
--   (`IsCodec`) are named there.
-- - Marks: `src/a2a_hub/marks.py`, the table as a list of rows with its writes passed along, and in
--   Marks/Routes the handlers of `src/a2a_hub/routes_marks.py`. Table, Clean, Guarded, Closed, Shown
--   and Listed hold the theorems.
-- - Registry: `src/a2a_hub/registry.py`, the table as a list of rows beside the cache of writes of
--   `touch`; Changes has `retire`, `update_status` and `list_agents`, and Routes the handlers of
--   `src/a2a_hub/routes_registry.py`. Presence, Declared, Keyed, Accepted, Listed, Warned and
--   Routes/Refused hold the theorems.
--   Registry/Contract states beside it a register of entries without table, order or cache.
-- - Environ, Config: `src/a2a_hub/config.py`, `_parse_tokens` and in Config/Environment `from_env`.
--   Extensions: `src/a2a_hub/extensions.py`.
-- - Schema: `src/a2a_hub/schema.py`, the loop as the statements it executes and what it raises, beside
--   what the database makes of them; a default that is a `str` has no `text`, as SQLAlchemy keeps it; and in Schema/Created `create_schema` of the two tables. Altered, Complete and Again
--   hold the theorems.
-- - Hub: `create_app` of `src/a2a_hub/app.py` with the route tables of the two route files: `serve` takes
--   a request through the guards to its handler, on a state of the register and the marks. The
--   message store is an argument of each step. Visits has the requests so far. Guarded, Earned and Addressable hold theorems on one
--   request, Sound those on every state that requests lead to, Startup those on the start from the
--   environment (`run` of `src/a2a_hub/server.py`), and Arrival those that follow a message from its
--   delivery to its mark. Post runs the hub together with the message store, where `SendMessage` and
--   `CancelTask` are steps too; Post/Honest, Post/Genuine, Post/Authentic and Post/Read are about who
--   mail and marks are from, and who reads them. Lifespan has the life of the application and what uvicorn is given.
-- - Client: `src/a2a_hub/client.py`. Effect is a monad of calls, printed lines and exceptions over a
--   transport that is a parameter; Settings has `ClientConfig`, Calls `HubClient`, Reading
--   `list_all_tasks` and `split_by_mailbox`, Arguments the reading of the command line, Inbox the
--   checks against the register and the filter of `--unprocessed`, Agents `format_agent`, and Mailbox,
--   Command and Main `main`, command by command. A printed line is data in place of its sentence.
--   Tasks has `format_task`. Marking is about the
--   commands on marks against the routes, Sending about `send` against the executor. Ends, Counted, Turns, Whole, Hidden, Flags, Mistyped, Idle,
--   Tasks/Shown, Marking/Kept and Sending/Delivered hold the theorems; Whole is about
--   the client and the store's listing together (Store/Listing/Speed says how many pages that takes),
--   Flags about the client and the register.
-- - Card: `src/a2a_hub/card.py`.
-- - Prune: `.github/scripts/prune_plan.py`, with `flatten` and `tags` in Prune/Listing, and
--   `.github/scripts/confirm_deletable.py`; the theorems on deletion are in Prune/Litter.
-- - Examples: the theorems at concrete input, and tests.
--
-- Numbers are natural numbers or integers without a bound, as Python's are. There are two fuels: that
-- of `read_all`, the reader of a listing, where more fuel than the two mailboxes have tasks is enough,
-- and that of `walk`, the loop of `list_all_tasks`, which is one more than the bound on pages, where the
-- loop stops by itself. The other loops of the code recurse on their lists.
--
-- Not modelled: the SDK, the database engine, Starlette's routing and the interleaving of concurrent
-- requests (a request is one step of the hub; the bearer guard knows the register's `touch` as a
-- step that may fail). What they do is a parameter, with the laws that are used: `IsPaged`, `Saves` and
-- `IsFaithful` of the SDK's store, `Engine` of SQLAlchemy. A line that the client prints is data in place
-- of its sentence, but for `format_task`. The version of the package is an argument.
pub mod Prelude
pub mod Environ
pub mod Json
pub mod Auth
pub mod Executor
pub mod Store
pub mod Marks
pub mod Prune
pub mod Registry
pub mod Extensions
pub mod Schema
pub mod Config
pub mod Client
pub mod Hub
pub mod Card
pub mod Examples
