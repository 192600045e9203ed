-- ===== src/Lib.antt =====
-- The telephony service of the repository: a Python service between Asterisk and a CRM. It keeps a
-- table of calls, starts outbound calls, answers inbound ones, and moves each call along as the
-- events of Asterisk arrive.
--
-- The parts, and the files that model them:
--   Naming     the names of an extension (`extension_key`, `endpoint_name` and their like in
--              app/admin.py, `endpoint_name` of app/asterisk_client.py, `mailbox_name` of
--              app/voicemail.py)
--   Directory  the lookups of extensions and numbers of `SettingsStore` (app/admin.py), on the
--              rows of the two tables; Numbering the number of a new extension, Outbound the
--              number that an account calls out from
--   Calls      the record `Call` and the table `CallStore` (app/models.py): Record the columns and
--              the changes, Query the search and the summary, Rows and Keys what a write does
--   Engine     `TelephonyService` (app/services.py) and the client of app/asterisk_client.py.
--              World is the state (the table, `_leg_index`, `_ivr_sessions`, `_finalizing`, a log
--              of requests) and the monad of a method, which returns or raises; Context is what
--              the engine is given; Asterisk the requests; Notify, Dial, Legs, Start, Ring, Menu,
--              Answer, Finish, Events, Recovery the methods; Service the steps of the running
--              service (app/ari_worker.py). Logic is a program logic for the methods, Quiet the
--              methods that write no row, Settled the invariant of the table, method by method.
--   Journey    what a stored journey makes of a call (app/admin.py): Nodes the stored records, the
--              root the policy of a desk (`_desk_handling`, `apply_desk_handling`), Planner the
--              plan of a number (`_plan_nodes`, `_ivr_answer_plan`, `inbound_plan`,
--              `number_flow_anchor`); Steps, Owned and Limits what a plan may name
--   Webhooks   the table `webhook_deliveries` (app/admin.py) and the pass of the worker over it
--              (`process_webhook_deliveries` of app/services.py): Order the sorting and the limit,
--              Rows the ids, Attempts, Success and Starvation what a pass does
--   Claims     the idempotency keys of the API and the claims of voicemail mails
--              (app/admin.py); Voicemail/Leases what a claim means, Voicemail/Delivered what an
--              accepted mail means
--   Access     the HTTP API: RateLimit, Requests and Calls of app/routes.py (`_rate_limited`,
--              `create_call`, `build_call`, `call_allowed`), Keys of app/admin.py and `require_token`.
--              The limiter's dictionary is a worker's own (RateLimit/Workers); the check of one
--              request is one step, so the threads of a worker do not interleave within it
--   Scenarios  concrete services on which the theorems are applied
--
-- How the model reads the code. A text is the list of its code points; `strip`, `lower` and
-- `isdigit` are those of ASCII, but that `build_call` takes the digits of other scripts, which
-- `isdigit` accepts and `int` may not, as a parameter. A status, a direction and a recording status are the texts that
-- the code writes, as constructors. A time stamp is an instant in microseconds, with or without a
-- time zone, or a text that cannot be read. Python's exceptions are results; what was written
-- stays written when a method raises. A method runs to its end before the next one: an event is a
-- step, and steps come in any order. The web process and the worker, which share the database, are
-- one state here; that they can interleave inside a method is not modelled.
--
-- What is not under the model is a field of `Ctx`, and no law is assumed of it: the replies of
-- Asterisk (each request is carried out, refused or unanswered, and may be answered differently
-- each time), the channels and recordings that it lists, the clocks, `uuid4`, the settings, and the
-- webhooks. The plans of a stored journey (`inbound_plan`, `apply_desk_handling`,
-- `number_flow_anchor`, the fallback of a customer) are fields of `Ctx` as well, so a theorem of
-- the engine holds of every reply, every order of replies, and every plan; Journey models the
-- functions that fill these fields. The answers of the receivers of webhooks and the clock of the
-- database are the record `Outside` of Webhooks. Database calls do not fail, but a key that is taken
-- is refused. No definition runs on fuel: loops go over lists, and the mutual calls of
-- `_inbound_no_answer` and `_ring_fallbacks` are opened once.
--
-- A stored JSON is read into a record: a step of a journey that is no object is not in the list, a
-- text that is missing is empty. Times of the webhook and claim tables are in seconds, and rows that
-- were made in one second are taken in the order in which they were made.
--
-- Not modelled: the console of app/admin.py and the checks and writes of its tables, the other HTTP
-- handlers of app/routes.py (so the write of a disposition is no step; what `build_call` gives is an
-- argument of `create_call`, and the default extension one of `build_call`), the configuration of
-- Asterisk, voicemail files and the text of mails, and the websocket. The recovery after a restart
-- of the worker (Engine/Recovery) is modelled; it is not among the steps of Engine/Service.
pub mod Prelude
pub mod Naming
pub mod Directory
pub mod Calls
pub mod Journey
pub mod Webhooks
pub mod Claims
pub mod Access
pub mod Engine
pub mod Scenarios
