-- ===== src/Lib.antt =====
-- Verification of Qoder2API, a bridge that serves an OpenAI-compatible API from a pool of accounts.
--
-- A chat request names a model, perhaps with a region prefix. The chat handler asks the router for an
-- account, and for another one if the gateway rejects its credentials. The bridge of the account
-- streams the answer, and the accumulators of the transform package turn the gateway's deltas into
-- chunks. Afterwards the request is logged and counted, and its credits are charged to the billing
-- cycle. The store keeps accounts, keys and settings in a file.
--
-- What models what (paths from the root of the repository):
--   Region, Region/Parse: models/route.go, the region filter and ParseRegionPrefix.
--   Store: store/store.go. Accounts, Keys and Settings have the locked section of each method and its
--     checks, AutoSwitch the routing configuration, Calls the methods as calls with the save after
--     them, Load what a start does. Interleaving has the store's two locked sections per method,
--     failing saves, crashes and restarts as steps; Pool, Restart and Keys/Lookup prove what these
--     keep.
--   Bridge: bridge/handler.go. Reply is handleChatError, Failover the loop over accounts, Handler
--     MakeChatHandler around it, Seed conversationSeed over the values of Json; Accounting,
--     Attempts, Agreement, Answers and Turns prove what these do. Params is bridge/params.go, Stream openStreamAsync of
--     bridge/bridge.go, each with what it keeps. Session is the renewal of a session of
--     bridge/session.go, in whole milliseconds that do not wrap.
--   Models: models/models.go, with the models handler and statsModelLabel of bridge/handler.go in
--     Models/Resolve; Models/Listed proves what resolves.
--   Admin/Pat: admin/admin.go, the PAT form, which calls several methods of the store.
--   Router/State, Candidates, Rotate, Pick, Bind: routing.go. `pick` is router.pick, composed of the
--     candidate filters, the sticky block (`sticky_step`) and `rotate`; `bind` is router.bind. The
--     router is passed from call to call. Router/Quota has the steps that run under its mutex;
--     Router/Served tallies the requests of each binding beside them, and Router/Rounds follows
--     one conversation.
--   Logs/Entry, Recorder, Query, Fold: logs/logs.go. Logs/Persist adds the disk and the one goroutine
--     of main.go that flushes.
--   Stats/Data, Calendar, Cycle, Record: stats/stats.go. `roll_cycle` is rollCycleLocked,
--     `project_cycle` projectCycleLocked, `set_billing_cycle` setBillingCycleAt.
--   Transform/ToolCalls, Stream: transform/transform.go, ToolCallAccumulator and StreamAccumulator.
--   Cors: cors.go, the origin policy and `cors_handler`, which is corsHandler; Cors/Allowed and
--     Cors/Handler prove what they decide.
-- The other modules beside these prove what they are named for. Prelude, Text, Dict and Float have
-- the shared data: Go strings, maps and float64. Tests runs the model on concrete inputs.
--
-- Conventions:
--   Go's int and int64 are integers or, where the code has no negative values, natural numbers.
--     Logs/Query computes modulo 2 ^ 64; counters and instants elsewhere do not wrap around.
--   Instants of the router and the log are nanoseconds, those of the statistics milliseconds.
--   float64 is a parameter with the operations that the code applies; a theorem that needs a law
--     of it has it as a hypothesis.
--   A map is an association list; where the program ranges over one and the order matters, the order
--     is a parameter. A mutex makes the code that it guards one step.
--   A string is a list of code points; the substring search of the log reads them as bytes.
--   The loops over missed billing cycles have the bound of the source, maxCycleCatchUps; what is left
--     when it is used up is in the model as in the code. The failover loop counts down from
--     maxFailoverAttempts, as the code counts up to it. All other loops run over lists.
--   Parameters stand for SHA-256 (`digest`), the calendar of Go's time package (`Calendar`), the
--     format of hour keys, JSON of the data file (`encode`, `decode`) and of buffered tool calls
--     (`parse`), url.Parse, time.Parse and strings.ToLower. Random bytes and the clock are arguments.
--
-- Not modelled: HTTP, JSON and SSE text, authentication, the sessions and streams of bridges, and
-- the admin interface but for the PAT form; most of these are input and output. The rows of the
-- statistics report are not modelled either.
pub mod Admin
pub mod Prelude
pub mod Text
pub mod Dict
pub mod Json
pub mod Float
pub mod Region
pub mod Store
pub mod Router
pub mod Logs
pub mod Stats
pub mod Transform
pub mod Models
pub mod Bridge
pub mod Cors
pub mod Tests
