-- ===== src/Lib.antt =====
-- The task core of the Starburst backend: a server that queues prompts as tasks, runs them in
-- sessions of an OpenCode server, and pushes what happens to connected clients. Handlers and the
-- scheduler write tasks to the database, workers claim and run them, rules start new ones, and
-- the hub broadcasts each change.
--
-- * Exec, Sql: Go's (value, error) results beside a changed state, and what WHERE, UPDATE,
--   DELETE, ORDER BY and LIMIT do to a list of rows.
-- * Store (internal/store/task.go, rule.go, ruleexecution.go, rebind.go): a record Db of rows,
--   the clock of the database and the statements that it will refuse; each method of sqlStore is
--   a definition of the same name over its SQL. An UPDATE is a record of its WHERE test and its
--   SET list. Store.Calls runs any sequence of calls at any times.
-- * Executor (internal/tasks/executor.go): execute and the functions that it calls, on a World of
--   the database, the pushed messages and the started goroutines. A Script holds the replies of
--   OpenCode and the LLM, and the calls of the store that others make while the worker waits.
--   Executor.Gates is a step relation of the workers that share session gates, Executor.Worker
--   the turns of a worker and the passes of janitor.go.
-- * Automation (internal/automation): cron.go over code points and a calendar, and the rule
--   engine.
-- * Server (internal/server): tasks.go, batch.go, scheduler.go, ratelimit.go, rules.go and
--   orchestrate.go; a handler returns its reply and the World, or the rule tables, that it
--   leaves.
-- * Records (internal/store): a record Site of the tables beside tasks and rules, with a method
--   of the same name for each of sqlStore's: settings and tokens (store.go), web sessions,
--   session events, unread flags, archives, audit entries and counters. Records.Handlers
--   (internal/server: unread.go, audit.go, stats.go, archives.go) answers requests about them.
-- * Events (internal/server/events.go): frames of the upstream stream, the queue and the batches
--   between it and the table, the status of each session, and the listing.
-- * Access (internal/auth/auth.go, and of internal/server: server.go, handlers.go, clientKey):
--   the passwords and tokens of the Manager, who a request comes from, login and the token
--   handlers.
-- * Stt (internal/server/stt_refine.go): the rules that repair a transcript, on code points, and
--   the handler with the model's answers as arguments.
-- * Config (internal/config/config.go): the configuration from the environment and the flags.
-- * Push (internal/push/hub.go): messages, their severity, and the set of clients.
--
-- Times are nanoseconds as natural numbers; durations and attempts that Go keeps in a signed int
-- are integers where they may be negative. Loops over lists are structural. The search of
-- nextCron runs on fuel, a turn for each second up to its horizon of three years and one more,
-- which is enough: it returns nothing only if no second matches. The loop of promptSession takes
-- a list of turns, the deadline of ten minutes being where the list ends. The rounds of
-- dedupAdjacentRepeat run on fuel, one for each rune of the text, which is enough as each round
-- makes the text shorter.
--
-- Not modelled: routing and the decoding of bodies, migrations, the generation of tasks and
-- rules, the clients of OpenCode and the LLM, the proxy of the speech engine, and static pages;
-- the texts of Go's parse errors, and log lines. For the handlers over tasks, rules and records
-- the outcome of authentication is an argument. Random ids, bcrypt, sha256, the time zone's
-- calendar, time.Parse, time.ParseDuration, encoding/json, git and the success of network writes
-- are parameters.
pub mod Base
pub mod Exec
pub mod Sql
pub mod Store
pub mod Push
pub mod Executor
pub mod Automation
pub mod Server
pub mod Stt
pub mod Records
pub mod Events
pub mod Access
pub mod Config
