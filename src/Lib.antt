-- ===== src/Lib.antt =====
-- ProofLens scores photos that field agents submit as proof of a customer visit. An image runs
-- through five checks; a fusion turns their outcomes into one verdict: a score from 0 to 100, a band
-- (Clear, Doubtful, Suspect, or Unassessed) and one reason from a fixed vocabulary. Around that
-- engine stand a job queue that workers drain, a rate limiter, and a service for whole batches.
--
-- Parts, and the files that model them:
--   src/prooflens/engine/verdicts.py        Engine/Verdicts: bands, reasons, `most_severe`
--   src/prooflens/engine/scoring_config.py  Engine/Config: weights, thresholds, caps, bands
--   src/prooflens/engine/types.py           Engine/Types: the records between the parts
--   src/prooflens/engine/fusion/fuse.py     Engine/Fusion: `_blend`, `_gates`, `_band_for`, `fuse`
--   src/prooflens/engine/hashstore.py       Engine/HashStore: `hamming_hex`, the in-memory store
--   src/prooflens/engine/checks             Engine/Imaging, Engine/Checks: the five checks
--   src/prooflens/engine/pipeline.py        Engine/Pipeline: `score`
--   src/prooflens/vision                    Vision/Schema, Vision/Hybrid: the assessment, the backend
--                                           interface and the hybrid backend
--   src/prooflens/queue                     Queue/Backoff, Queue/Jobs: the jobs table and retries
--   src/prooflens/api/date_range.py         Api/DateRange: date bounds, the range, the daily series
--   src/prooflens/api/analytics.py          Api/Analytics: tallies, buckets, groups, the KPIs
--   src/prooflens/api/scoring.py            Api/Scoring: `score_bytes`
--                                           Api/Results: listing, review, `analytics_summary`
--   src/prooflens/api/dse.py                Api/Dse: the search for agents, `dse_scorecard`
--   src/prooflens/api/auth.py               Api/Auth: `require_tenant`
--   src/prooflens/api/app.py, security.py, schemas.py
--                                           Api/Webhook: `lsq_webhook`, `verify`, the size of a body
--   src/prooflens/api/hierarchy_admin.py    Api/HierarchyCsv: `_parse_csv`, `upload_hierarchy`
--   src/prooflens/api/ratelimit.py          Api/RateLimit: the limiter and the middleware
--   src/prooflens/service/ids.py            Service/Ids: `normalize_id`
--   src/prooflens/service/hierarchy.py      Service/Hierarchy: the organisation by effective date
--   src/prooflens/service/bulk.py           Service/Bulk: the registry and the run of a bulk job
--   src/prooflens/service/repo.py           Service/Repo: the in-memory repository
--                                           Service/MemoryQueue, Service/Tenants, Service/Keys: its
--                                           queue, tenants and API keys
--                                           Service/Nodes: its listing by node of the organisation
--                                           Service/Organisation: uploads, search, counts, status
--   src/prooflens/service/processor.py      Service/Processor: `process_job`
--   src/prooflens/service/api_keys.py       Service/ApiKeys: `mint_key`
--   src/prooflens/worker.py                 Service/Worker: `run_once`
--   src/prooflens/engine/summarize.py       Engine/Summarize: the decision in plain words
--   src/prooflens/db/repo.py                Db/Repo, Db/Reviews, Db/Organisation, Db/JobQueue: the
--                                           same in Postgres, with the queue
--   src/prooflens/db/hashstore.py           Db/HashStore: the Postgres hash store
--   src/prooflens/db/models.py              Db/Columns: what the columns of the tables take
-- Base holds what they share. The modules below a component's module prove its properties, and the
-- modules called Tests run the code on concrete inputs.
--
-- How the parts meet: `score` of Engine/Pipeline calls the checks with a hash store that is any
-- instance of the record HashStore there, whose laws Engine/Pipeline/InMemory takes from the
-- theorems on the in-memory store; it gives the outcomes to `fuse`. The vision backend is a record
-- with an `assess` that returns or raises. `process_job` of Service/Processor builds the context of a
-- job, scores it, writes the verdict to LSQ and records the result; the queue's `fail` takes the
-- errors that it gives, and `run_once` of Service/Worker ties the two together. `score_bytes` runs
-- the same engine for one upload or one row of a bulk job, and stores the hash only after it has
-- looked at the verdict. The analytics read the stored results over the range that `resolve_range`
-- gives. `require_tenant` looks up the keys that `mint_key` stores. `lsq_webhook` puts the jobs that the
-- workers claim into the table, and an uploaded CSV is the organisation that `resolve_node` reads.
-- `analytics_summary` and `dse_scorecard` put `resolve_range`, the listing of a repository and the
-- analytics together. The Postgres repository and hash store stand beside the in-memory ones; a query
-- of theirs is a function of the table's rows. A write whose values do not fit the columns (the length
-- of a String, NOT NULL, the character 0) is none, the error of the database, which leaves the tables
-- alone; the webhook answers it with a 500. Whether a list of checks can be stored as JSON is an
-- argument.
--
-- A request for a bulk job checks the jobs in flight and then creates its job; other requests run
-- between the two steps, as the endpoint runs in a thread pool. Each of the two is taken as one step.
--
-- How the code is rendered: a method is a function from the state to the state after it, an
-- exception is the constructor `raised` of Attempt or a sum, a dict is an association list in
-- insertion order, a missing value is none. The free-form data of a check is a record of the keys
-- that the fusion and the callers read.
--
-- Python's floats are any type that meets the record Float of Engine/Number: a total order, the
-- arithmetic without laws, and what `round(x, 1)` keeps. Rounding errors are thus left open.
-- `decimals` is one such type, on which the tests run. Python's int is ℤ where it can be negative
-- and ℕ where it cannot. Times are microseconds and days are numbers, counted from
-- any origin where the code only compares them. Base/Calendar is Python's `date`: days are proleptic
-- ordinals with 1 for January 1 of year 1, and year, month and day are searched for.
--
-- Arguments, for code that is not in the repository: what OpenCV, numpy, Pillow and imagehash measure
-- of an image (the record Imaging), the vision models, `random.uniform`, SHA-256, the clock, the rows
-- that another database session holds locked, fetching an image, `str.upper` (the record Casing),
-- `str.lower`, `textwrap.shorten`, `datetime.fromisoformat` on text that is no plain date, the random
-- token of a key, HMAC, the parse of a webhook's body, `csv.reader`, the construction of a vision
-- backend, `uuid.UUID` of an id in a request.
-- The jobs table is a list of rows; rows of one time are claimed in the table's order, which is one
-- of the orders that the SQL allows. Limits and attempt budgets are not negative.
--
-- Most recursions are structural. Fuel is used in `show_nat`, where a number's value plus one bounds
-- its digits; in the search for a year and a month, where the ordinal bounds the year; and in the
-- edges of buckets and the daily series, where the days of the range bound the steps: each step takes
-- at least one day, and the bucket of the last step reaches the end of the range. The rounds of a worker
-- on the in-memory queue are bounded by the attempts that its jobs have left.
--
-- Not modelled: the search of the organisation in SQL, the coercions of a model's answer, the guard
-- on LSQ's URLs, changes of tenants; and FastAPI routing and request parsing, SQLAlchemy sessions
-- and migrations, HTTP calls to model providers, encryption, settings, metrics, the command line,
-- the scripts and the frontend: these last are glue, or what they do is decided by code outside the
-- repository.
pub mod Base
pub mod Vision
pub mod Engine
pub mod Queue
pub mod Db
pub mod Api
pub mod Service
