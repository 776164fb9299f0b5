-- ===== src/Lib.antt =====
-- A model of the backend of Fraudhunter, backend/src/fraud_checker: a FastAPI service that ingests click
-- and conversion logs of an affiliate system (the ACS) into PostgreSQL, and runs that work in jobs.
--
-- The parts and their modules:
--   Queue       job_status_queue.py, job_status_models.py, job_status_summary.py: the table `job_runs`
--               and each method of `JobStatusQueueStore` as a function from its rows to its rows
--               (Queue/Store, Queue/Run), and what is reported of it (Queue/Report). Queue/Reach has the
--               methods as the steps of a relation, and Queue/First the order of `acquire_next`. The
--               partial unique index of the table is that of
--               backend/alembic/versions/0008_add_job_run_concurrency.py.
--   Jobs        services/jobs.py: `enqueue_job` (Jobs/Enqueue) and its requests (Jobs/Requests), the
--               keys, attempts and priorities of the kinds of jobs (Jobs/Kinds), the lease (Jobs/Lease),
--               the route of a request to its job (Jobs/Dispatch), and `process_queued_jobs`,
--               `_execute_job_run`, `_dispatch_job` and `advisory_lock` (Jobs/Execute) as actions on a
--               world: the queue's table, the advisory locks that sessions hold, the clock, and the rest
--               of the database, which the jobs change.
--               The jobs themselves, `run_click_ingestion` and the others, are actions on the world of
--               Ingestion, Cases and Masters (Jobs/Setup, Jobs/Bodies, Jobs/Refresh); Jobs/Kept
--               and Jobs/Finished have what they keep and that they end, Jobs/Rest and Jobs/Drained put
--               them under the worker, where each run finds its own settings, ACS and time (`during`), and Jobs/Daily follows the clicks of a day from
--               the ACS to the findings.
--   Ingestion   repositories/ingestion.py and ingestion.py: the raw and the daily tables of clicks and
--               conversions (Ingestion/Logs), each statement and operation on them
--               (Ingestion/Repository, Ingestion/Merge), the paging loops (Ingestion/Paging) and both
--               ingestors (Ingestion/Ingestors).
--   Detection   suspicious.py and ip_filters.py: the rules (Detection/Rules), the filters
--               (Detection/Filters) and `find_for_date` (Detection/Detector), on what the queries for a
--               date return.
--   Findings    services/findings.py: the damage of a finding (Findings/Damage) and
--               `recompute_findings_for_dates` (Findings/Recompute), which runs the detection of a date and
--               replaces the findings of Cases; and api_presenters.py: the level of risk (Findings/Risk) and
--               the texts (Findings/Reasons), on the reasons of the detection.
--   Cases       repositories/suspicious_findings_write.py: the tables of findings, generations, reviews,
--               assignments and follow-up tasks (Cases/Tables), and each method as a function on them
--               (Cases/Store), with the purge of repositories/suspicious_findings_read.py. Cases/Reach
--               has the methods as the steps of a relation.
--   Console     services/console.py: the schedules (Console/Schedules), and the list of alerts with its
--               queries (Console/Alerts), and the actions on alerts (Console/Actions), which call Cases.
--   Retention   services/lifecycle.py: the policy (Retention/Policy), the purge over the tables of
--               Ingestion, Cases and Queue (Retention/Purge), and what is said of the evidence of a date
--               (Retention/Evidence).
--   Masters     repositories/master.py: the names of media, promotions and users (Masters/Tables) and
--               their upserts (Masters/Store).
--   Settings    config.py: the readers of the environment (Settings/Env), and `resolve_acs_settings`
--               (Settings/Acs); services/settings.py and repositories/settings.py: the settings of the
--               rules (Settings/Values), their tables (Settings/Store), the cache of a process
--               (Settings/Cache), and `update_settings` (Settings/Update), which queues jobs.
--   Access      runtime_guards.py (Access/Guards) and api_dependencies.py (Access/Decisions): the modes of
--               the process, and the answer to the headers of a request.
--   RateLimit   rate_limit.py: the sliding-window limiter of the routes.
--   Common      tables as lists of rows, results with exceptions, JSON values, and dates.
--
-- Python and SQL in the model: a table is the list of its rows, and `UPDATE … WHERE` is `update_where`;
-- an exception is the `err` of `Result`; a naive datetime is a number of microseconds, and a date a number
-- of days; columns that hold JSON text hold the value. Integers are unbounded in Python and here. What the
-- clock and `uuid4` answer is an argument. Among ties, `ORDER BY … LIMIT 1` takes the first row.
-- Each method is one step, also `fail`, which reads the attempts in one transaction and writes in a second, so runs of several processes are sequences of calls; the client that
-- enqueues between the two statements of `enqueue_job` is `meanwhile` of its environment.
--
-- Fuel: `process_loop` runs on `max_jobs`, as the loop of the code does. The code's loops
-- over pages end only when a page is short or empty, and never against an ACS that always sends full pages.
-- `fetch_pages` stops with `none` when its fuel is used up; a job then ends with an exception that the code
-- does not have, and the database of the model notes that (`ended`). Fuel of one more than the entries of the
-- log, or that reaches a page from which on all are empty, is enough; the theorems that follow the jobs
-- assume such fuel, and show that no loop is cut short.
-- The loop of `_next_every_six_hours_run` has seven rounds, which are enough.
--
-- Parameters: the texts of dates, numbers, JSON and exceptions and PostgreSQL's `hashtext`
-- (Jobs/Formats), the pages of the ACS client, which fails or answers, and for the detection
-- the rows of its queries, `str.lower`, `in` on texts and `ip_address`; for the
-- recomputation the results of its queries, the hash, `json.dumps` and the texts of numbers; for the console
-- `LIKE` and the order of keys; for Settings and Access `strip`, `lower` and the like, the HMAC and
-- `compare_digest`. A ratio is compared without the
-- division of the code, whose floating-point rounding is not modelled.
--
-- Not modelled: the HTTP routes, the details and summaries of the console, the reporting,
-- the frontend, the requests of the ACS client, and the version of the settings that a recomputation stores.
-- A migrated database is
-- assumed, in which all tables and columns exist.
pub mod Common
pub mod Queue
pub mod Jobs
pub mod Ingestion
pub mod Detection
pub mod RateLimit
pub mod Findings
pub mod Cases
pub mod Console
pub mod Retention
pub mod Masters
pub mod Settings
pub mod Access
