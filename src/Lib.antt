-- ===== src/Lib.antt =====
-- interactive_whatsapp_meo: a model of the Go server InteractiveWhatsappMeow, and its theorems.
--
-- The server keeps WhatsApp sessions: a client of the whatsmeow module for each session, the
-- sessions and their messages in a PostgreSQL database, and webhooks that are told of events.
-- The session manager (internal/session) reads and writes the database through the repositories
-- (internal/store), speaks for a session through its whatsmeow client, and emits events to the
-- webhook service (internal/webhooks), which queues a delivery for each matching webhook and has a
-- worker that posts them. internal/whatsapp holds what is said of phone numbers and message bodies.
-- The HTTP interface (internal/httpapi) checks the key of a request (internal/auth), and answers
-- with what the manager, the message service (internal/messages), the webhook service or the read
-- models (internal/store/read_service.go) return, or with a status for their error.
--
-- Files and what they model:
--   Base             lists with Boolean tests, sorting, texts, signed numbers, Go's errors
--   Whatsapp.Jid     internal/whatsapp/jid.go: ParseTargetJID, NormalizePhone, CandidatePhones
--   Whatsapp.Message internal/whatsapp/messages.go: BuildMediaMessage, the readers of a message
--   Store.Models     internal/store/models.go: the rows and records
--   Store.Db         the database: tables, ids, clock, and the faults that its calls may meet
--   Store.Sessions   internal/store/session_repo.go
--   Store.Webhooks   internal/store/webhook_repo.go
--   Store.Messages   internal/store/message_repo.go and jid_sql.go
--   Webhooks.Service internal/webhooks/service.go: Emit, deliver, processDue, run
--   Sessions         internal/session/manager.go: World is the state and the client, Runtimes the
--                    map of runtimes, Targets the choice of a JID, Sending the four operations
--                    that send, Events the handler of the client's events, Login and Restart the
--                    operations that start, restart and close sessions, Channel the goroutines of
--                    a login, Live any sequence of them all
--   Messages         internal/messages/service.go
--   Store.ApiKeys    internal/store/api_key_repo.go
--   Reads            internal/store/read_models.go and read_service.go: Models the records, Queries
--                    and Canonical the SQL queries, Summary what is computed from their answers
--   Http             internal/httpapi and internal/auth: Types a request and an answer, Responses
--                    writeDomainError, Handlers router.go and read_handlers.go, Legacy
--                    legacy_handlers.go, Routes NewRouter behind the middleware
--   Config           internal/config/config.go
--   Start            cmd/api/main.go, up to the HTTP server
-- The names are those of the source in snake case. A repository's method is a function on the
-- database that returns a result and the database; a manager's method the same on its world.
--
-- What the model takes for granted. PostgreSQL is modelled by its tables: one statement is one
-- step, `ORDER BY` is a stable sort, and a script of turns says which statements fail and how much
-- time passes. Constraints that the code relies on (unique session ids, foreign keys) are checked
-- by the statements. Times are numbers, in nanoseconds. The whatsmeow client, its JIDs, the HTTP
-- exchange, devices, JSON and MIME tables are parameters, of which a theorem assumes only what it names.
-- What leaves the process is logged: `posts` has the deliveries that were POSTed, `sends` the
-- messages, `presences` the clients that were made available; the program reads none of these.
-- A method of the manager runs without another in between; the goroutines of the manager meet only
-- in `runtimes`, which a mutex guards, and in the database. The worker runs for a number of rounds,
-- and the theorems hold for every number. Contexts that are cancelled are not modelled: a call
-- that they stop is a call that fails.
--
-- A request is given by what the handlers read of it, since net/http, chi and encoding/json take it
-- apart; a route is one that chi has matched. The hash of a key is a parameter. Instants of the
-- read models are numbers too, and a date is the number of its day.
--
-- Not modelled: logging, how the database is opened and migrated, signals and the shutdown of the
-- process, static files, and how an answer is written as JSON. A goroutine of the
-- manager is recorded when it starts, and what it does is a step of its own.
pub mod Base
pub mod Whatsapp
pub mod Store
pub mod Webhooks
pub mod Sessions
pub mod Messages
pub mod Reads
pub mod Http
pub mod Config
pub mod Start
