-- ===== src/Lib.antt =====
-- shigure-edr: a server that endpoint agents report to and get read-only tasks from.
--
-- An agent enrolls with a token, then authenticates every request with its own credential: it sends
-- heartbeats and events, polls for tasks, reports results and uploads evidence. The server looks for
-- suspicious events and stores alerts for them. Administrators queue tasks under the read-only policy,
-- revoke and rotate credentials, set the configuration of a tenant, and investigate: they open cases
-- for alerts, search events, save hunts and follow processes. The library follows the Python package,
-- file by file:
--
--   Catalog         open_edr_mdr_agent/api/task_catalog.py: Catalog.Spec has ArgumentSpec and
--                   TaskDefinition, Catalog.Host, Files and Response the 22 entries of
--                   _TASK_CATALOG_SOURCE, Catalog itself the policy functions.
--   Evidence        open_edr_mdr_agent/api/evidence.py and api/object_storage.py.
--   Control         open_edr_mdr_agent/api/store.py, SQLiteStore: Control.Schema has a record for each
--                   table and `Store` for the whole state; Enrollment, Credentials, Evidence, Events,
--                   Alerts, Tasks, Config, Cases, Hunts and Listings have one function for each method,
--                   under the method's name. Control.Tasks.Admin has those of administrators, and
--                   Control.Credentials.Heartbeats those of heartbeats.
--   Api             open_edr_mdr_agent/api/app.py: Api.Runtime has _runtime_config and the choice of
--                   the stores, Api.Auth the two authentications, Api.AgentRoutes, TaskRoutes, Ingest,
--                   CaseRoutes, HuntRoutes and Health the handlers, over the functions of Control. The
--                   requests are those of api/models.py, api/cases.py and api/hunts.py.
--   Events, Graph   open_edr_mdr_agent/core/schemas.py, and the process graph of api/app.py.
--   Investigation   the helpers of api/app.py that put packages together; Investigation.Packages has
--                   those of a workspace, Investigation.Chain process_chain, and
--                   Investigation.Contexts the contexts of a host.
--   Rules,          open_edr_mdr_agent/core/rules.py and core/detection.py: Rules.Matching and
--   Detection       Detection.Alerts have the evaluation. Regex has what the three regular expressions
--                   of core/detection.py are made of, as matchers.
--   ClickHouse      open_edr_mdr_agent/api/clickhouse_store.py: the rows that are sent to the three
--                   tables; ClickHouse.Queries has the texts of the queries, ClickHouse.Quote _quote.
--   Normalizers,    open_edr_mdr_agent/core/normalizers.py, core/provider.py (Providers and
--   Providers       Providers.Composite) and adapters/local_json.py (Providers.Local).
--   Postgres        open_edr_mdr_agent/api/postgres_store.py: the translation of the SQL of the store.
--   Release         open_edr_mdr_agent/api/release_validation.py; Release.Report describes a good
--                   report in words of its own.
--   Base, Json,     shared: tables and SQL statements (Base.Table, Base.Keys, Base.Batch, Base.Sort),
--   Text            dicts, results, integers; the values of json; the methods of str.
--   Tests           runs on small data, and the theorems at concrete inputs.
--
-- The state. A table is the list of its rows in the order of insertion; a `where` clause is a Boolean
-- test; `insert` fails on a primary key that exists, and `insert or ignore` skips it. An operation is a
-- function from the state to its result and the new state; an exception is `err`, and leaves the state
-- as it was, since sqlite3 does not commit. ingest_events commits more than once: it returns its state
-- with an exception as well. What an operation draws (the clock, uuid4, secrets) is an argument; `Draw`
-- is the identifier and the instant of one event. Where pydantic draws the default of a field, the
-- draws are an argument of the route: `EventPayload` is an event as it is sent, with or without an
-- identifier and a timestamp, and `parsed` gives the events that the handler gets. An instant is a count of microseconds, in place of
-- the text of isoformat in UTC, which has the same order; instants without an offset or with another
-- one are outside. A `..._json` column holds the value, and a dict is the list of its entries with the
-- first of a key in force; what put_json writes is the value itself and not its JSON text. Rows that
-- are equal in an `order by` keep the order of insertion. A negative `limit` is none, as in SQLite. The
-- loops of expire_stale_tasks, insert_events, insert_alerts and the health detection draw one instant for all
-- their rows.
--
-- Outside the source. `Codec` is the part of json, hashlib and base64 that the program uses, and
-- `str(value)` of values that are no text; `Python` is `str` of the other values and re.search,
-- `Dumps` and `Writer` are what pydantic writes for a model, `Reader` reads numbers and instants from
-- texts. They are parameters, and a theorem that needs more of them says so. The scheme of a URL is a
-- parameter as well. The telemetry store is one to the handlers: `Telemetry` answers its queries, and
-- `project` is what it does with the events of an upload. The methods of str treat letters of ASCII. A
-- condition of a custom rule on a name that is no field of an event finds nothing. The environment is
-- a function from names to texts, once as it was when app.py was loaded and once as create_app reads
-- it.
--
-- Fuel. The two walks of the process graph, the walk of process_chain and the trace of
-- Providers.Local run on fuel, one more than there are events: each step sees a process that was not
-- seen before, and Graph.Terminates, Investigation.Chain.Ends and Providers.Traces show that this is
-- enough. Every other loop is structural recursion on a list or a text. Python's own limit on the depth
-- of recursion, which visit_descendants can reach on a long line of processes, is not modelled.
--
-- Not modelled: the connection of the PostgreSQL store and its migrations, the HTTP client, the DSN and
-- the retention report of the ClickHouse store, the downloads of agent packages and configurations, the
-- routes that only pass a listing on, the console page, the command line, and the agent itself, which
-- is written in Go. A stored payload of raw evidence is read from the object store; the old column
-- payload_json is not kept.
pub mod Base
pub mod Json
pub mod Text
pub mod Evidence
pub mod Catalog
pub mod Control
pub mod Tests
pub mod Api
pub mod Events
pub mod Graph
pub mod Release
pub mod Regex
pub mod Rules
pub mod Detection
pub mod ClickHouse
pub mod Investigation
pub mod Normalizers
pub mod Providers
pub mod Postgres
