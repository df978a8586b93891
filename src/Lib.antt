-- ===== src/Lib.antt =====
-- Verification library of the query service: an HTTP service (app/main.py, app/jwxt_http.py) that
-- logs students in at a school system (app/jwxt_core.py), keeps their sessions and results in the
-- process (app/jwxt_state.py), and turns schedules into calendars (app/calendar).
--
-- The parts and how they interact. A request passes the rate limiter and the concurrency limiter;
-- a login enters the session store, under the keyed lock of the user, or reuses a session of it;
-- results are kept in the cache; a short code stands for a session in a link. The calendar reads
-- the rows of a schedule by the rules and makes events of them, which are written as text. The
-- query application (app/pipeline.py) asks this service for grades and schedules, renews a session
-- that has expired, and degrades where the language model or the jump link fails; it logs its
-- queries (app/querylog.py), shows notices (app/notices.py) and queues jobs (app/jobs.py). Stores
-- that are shared by replicas stand in Redis behind a circuit breaker (app/jwxt_redis.py), with the
-- stores of the process as fallback.
--
-- Files, and the code they are about:
--   Sessions: SessionStore of app/jwxt_state.py. `drop` is _drop; create, find_reusable, refresh,
--     touch, get, sweep, status and invalidate have the names of the methods. The cookies are an
--     arbitrary type; the identifier that secrets draws is an argument of `create`.
--   KeyedLocks: KeyedLocks of app/jwxt_state.py. `register`, `acquire`, `release` and `unregister`
--     are the sections of the method lock, Step is what one of any number of threads does next,
--     Reach are the states that any interleaving leads to. Entries are objects of a heap.
--   Concurrency: ConcurrencyLimiter of app/jwxt_state.py; a method holds the lock and is one step.
--   RateLimit: RateLimiter of app/jwxt_state.py, with `prune` for _prune.
--   Cache: TTLCache of app/jwxt_state.py. `make_room` is the clean-up in set.
--   ShortCodes: ShortCodeStore of app/jwxt_state.py, with `prune` for _prune; the code drawn is an
--     argument of `mint`.
--   Counters: ServerState.record of app/jwxt_state.py, as `record_request`; a duration is a number of
--     microseconds. Counters/Sums are the proofs.
--   Dependencies: DependencyHealth of app/dependencies.py, with `record_state` for record; the
--     initial states are an argument. Dependencies/Snapshot are the proofs.
--   Calendar/Sets, Calendar/Runs: contiguous_runs of app/calendar/rules.py and weekly_runs of
--     app/calendar/ics.py, as one loop with a step of one week or seven days.
--   Calendar/Weeks: parse_weeks of app/calendar/rules.py; Calendar/Segment says
--     what a segment is apart from the code; Calendar/Parsing and Calendar/WeekLaws are its proofs.
--   Calendar/Periods: parse_period_numbers and resolve_periods of app/calendar/rules.py, and the
--     look-ups of app/calendar/config.py; Calendar/Arrange are the proofs.
--   Calendar/Dates: week_monday and occurrence_dates of app/calendar/rules.py.
--   Calendar/Events: build_events of app/calendar/ics.py, with the exceptions that leave it;
--     Calendar/EventLaws are the proofs.
--   Calendar/Text: _escape and _fold of app/calendar/ics.py, with what a reader of the format does;
--     Calendar/Escape and Calendar/Fold are the proofs.
--   Resilience: RedisBackend and `_resilient` of app/jwxt_redis.py. Resilience/Breaker has any number
--     of threads that call through the breaker, Resilience/Stores the stores behind it,
--     Resilience/Degraded the wrapper while the breaker is open, Resilience/Semaphore the permits
--     of ResilientRedisSemaphore and LocalSemaphore.
--   Jobs: JobStore of app/jobs.py on a parameter Redis: a record of the commands, of what can be
--     asked and of the documented effect on the status of a job and on the number of pending
--     jobs. Jobs/Interleaved has the steps of any number of threads, where a reading and the
--     writing that follows it are two steps; Lasting is about a job that has finished; Pending,
--     Finished and Submission are proofs.
--   Notices: NoticeStore of app/notices.py; `create_op`, `update_op` and `delete_op` are the operations
--     that `mutate` (_mutate) runs between reading and writing. Notices/Content is the text of a
--     notice, Notices/Defs the records and the file; Replay, Counting, Moves, Durable and Effects are
--     lemmas on the file, the active notices, the operations, the writing and one call;
--     Notices/Calls has any calls of any processes.
--   Pipeline, Pipeline/Queries: Pipeline of app/pipeline.py, a function for each method and one for
--     what follows each call (`after_login`, `after_jump` and so on). Pipeline/Recovery,
--     Sending, Requests, Bounds and Degrading are about the requests that are sent and the results.
--   EventHistory: MemoryEventHistory of app/history.py; the digest of an event is an argument.
--     EventHistory/Latest are the proofs.
--   QueryLog: sanitize_entry and JSONLFileWriter of app/querylog.py. QueryLog/Reading and Written are
--     about the reading from the end, Rotation about the backups, Fields about the entries.
--   Common, Clock: dictionaries in the order of insertion, sets of names, sums over threads, the
--     integers of the rate limiter, Boolean tests, and the clock.
--
-- Choices. A time is a number of microseconds, as an exact reading of the clock; where the source
-- reads the clock twice there are two arguments. A level of the rate limiter is an integer of
-- exact units in place of a float, below zero where the clock runs back. A setting is a natural
-- number: the source raises a negative one to zero. A text of the calendar is its code points,
-- and what Unicode says of them (digits, white space) is a parameter; a newline is white space,
-- as it is for `strip`, so that a segment has none at its end. A date is its ordinal, a time of
-- day its minutes. A file of notices is a list of lines, a line that holds a record is this
-- record, and a method that holds the lock of the file is one step, with what the disk does as an
-- argument: it works, cannot be read, or fails in the writing with nothing or all of it in the
-- file. The files of the log are a function of their number. What Redis, the service and the
-- language model answer is a parameter, on a world of its own, and any answers are possible. The
-- bound on the pending jobs is about calls one after the other. An exception is a value: of the
-- pipeline those of the language model, of the count and of the texts, of the calendar those of
-- `int`, of dates and of encoding. `read_back` of QueryLog runs on fuel, the length of the file,
-- which is enough as each turn reads at least one byte; all other loops are structural recursion.
--
-- Not modelled: the network and the pages of the school system, the HTTP handlers, the stores in
-- Redis and their keyed locks, the expiry of the keys of a job but its status, a line of notices
-- of which only a part is written, the text of the metrics, tracing, the rules of the classifier,
-- the making of documents, the mirror of the notices, and of the calendar the store, the service,
-- the validation of the configuration, and of an event the place, the description, the identifier
-- and the sequence number, which are texts for a reader.
pub mod Common
pub mod Clock
pub mod Sessions
pub mod Cache
pub mod ShortCodes
pub mod Concurrency
pub mod RateLimit
pub mod KeyedLocks
pub mod Counters
pub mod Dependencies
pub mod Resilience
pub mod EventHistory
pub mod Jobs
pub mod Notices
pub mod Pipeline
pub mod QueryLog
pub mod Calendar
