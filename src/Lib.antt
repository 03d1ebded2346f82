-- ===== src/Lib.antt =====
-- minilake: a local server with the REST API of a Databricks workspace. Each service under
-- src/minilake/services is a module with a `_state` dict, the handlers of its routes, and
-- `get_state`, `restore_state` and `reset`. The server is one asyncio event loop; a handler runs
-- without interruption up to its first `await`, so that it is one step on the state here.
--
-- A handler is a function of the request, of what it draws from outside (ids of `uuid`, the time)
-- and of the state, and gives a result or an error beside the state it leaves: what it wrote before
-- it raised stays written. The answers of third-party code are parameters: `cluster_info` for
-- pydantic's ClusterInfo, `loads` for json.loads, `upper` for str.upper, `perform` for the execution
-- of one task, `execute` for the SQL engine, `wire` for csv, json and pyarrow, `statement_type` for a
-- regular expression, `values` for Python's floats, `world` for DuckDB and the directory of the
-- volumes, `python`, `path_filter` and `listing` for what SCIM asks of Python on JSON values, texts
-- and regular expressions, `conversions` for what preview_sql.py asks of it on JSON values.
--
-- Prelude     Python's `==`, `in` and dict, Boolean tests on numbers, integers
-- Errors      src/minilake/errors.py: DatabricksError, and handlers as actions on a state
-- Json, Text  the values of a request or a stored dict; str.split, str.join, str.strip; below Text,
--   Numbers has `int(text)`
-- Paging      the pages of lists, whose code saved_queries.py, alerts.py and sql_statements.py repeat;
--   below it Walk, a client that follows the tokens
-- Compute     services/clusters.py, services/cluster_policies.py, services/instance_pools.py
--   State       the three `_state` dicts, the transition tokens and the sleeping transitions
--   Clusters    the handlers on clusters, `_schedule_transition` and `_transition`; below it Records,
--     the dict of a cluster and what each handler writes to it
--   Policies, Pools   their handlers, whose deletions read the clusters
--   Events      every handler and every resumption of a transition as one step; runs of these
--   Lifecycle, References, Failures   what they satisfy
-- Jobs        services/jobs.py and models/jobs.py
--   Model, Crud, Runs, Output   the state and the handlers on jobs and runs
--   Graph       `_task_graph_error`; below it Relaxation, Order, Visits, Start, Ranking, Members and
--     Accepted, what its loop leaves
--   Scheduler   `_run_if_satisfied` and the loop of `_execute_run_tasks`
--   Execution   the rest of `_execute_run_tasks`
--   Events, Stored   every handler as one step; what the stored jobs and runs satisfy
-- Secrets, Permissions, Grants, Tokens, Warehouses   services/secrets.py, permissions.py, grants.py,
--   tokens.py and sql_warehouses.py
-- Names, Objects   the display names, update masks and handlers that services/saved_queries.py and
--   services/alerts.py share; Objects.Legacy has the writers of services/preview_sql.py
-- SavedQueries, Alerts   these two services; Alerts.Evaluation has `evaluate_alert`
-- Statements  services/sql_statements.py, without the rewriting and the execution of SQL
--   Model, Chunks   the state; the manifest and the chunks of a result
--   Execution   the cache and the handlers that execute, answer and cancel a statement
--   History     `list_query_history`
-- Scim        services/scim.py: the helpers of its three stores
--   Patch, Projection, Handlers   PATCH; lists and the attributes they answer; the routes
-- WorkspaceAdmin   services/workspace_admin.py: git credentials and the configuration; below it
--   IpLists, the IP access lists, and Snapshot, the ids of the credentials as JSON keys
-- ColumnTypes   uc_types.py: Specs has its tables, Splitting takes the text of a type apart, and Parser is
--   `_parse`, whose recursion ends by Sizes, Outcomes and Returns;
--   Refusals is about what it raises
-- UnityCatalog   services/unity_catalog.py
--   State, Pool   the registry, the interface to DuckDB and to the volumes' directory; duckdb_pool.py's
--     attaching and detaching
--   Children   what a parent contains
--   Catalogs, Removal, Columns, Tables, Volumes, Functions   the handlers; Removal deletes catalogs and
--     schemas
--   Description, Merge   the columns that a table is answered with, and what they say
--   Belonging, Integrity, Keeps, Requests   the invariant, that each handler keeps it, and runs
--   Deletion   what a deletion without force does; below it Schemas and Catalogs
-- Examples, Compute.Tests, Jobs.Tests, SavedQueries.Tests,
--   Statements.Tests, Scim.Tests, WorkspaceAdmin.Tests,
--   ColumnTypes.Tests, UnityCatalog.Tests, UnityCatalog.Merge.Tests   runs on concrete inputs
--
-- The scheduling loop and the visit of a task graph run on fuel, the number of tasks: a round of the
-- first takes tasks out of `pending` or stops, and a round of the second takes one key off the queue.
-- The search for a free display name runs on the number of stored objects, each of which takes one
-- name at most. The chunks of a result are cut on the number of its rows. The parser of column types
-- runs on the length of its text, since every text that it takes out of another is shorter.
--
-- Not modelled: what a task executes (SQL, alerts, containers) and the `except` branch of
-- `_execute_run`; the reading handlers whose answer is a constant or a sorted list; snapshots other
-- than those of the compute plane and of the git credentials; init scripts, notification
-- destinations and instance profiles of workspace_admin; the handlers of unity_catalog that list
-- and get tables and volumes, and its credentials; the services dbfs, files,
-- volume_paths and workspace; of preview_sql all but the writers of saved queries and alerts; the
-- failure of closing a connection of a warehouse; and the modules that start the server, reach Docker,
-- DuckDB or the disk, or forward to its API.
pub mod Prelude
pub mod Errors
pub mod Json
pub mod Text
pub mod Paging
pub mod Compute
pub mod Jobs
pub mod Secrets
pub mod Names
pub mod Objects
pub mod SavedQueries
pub mod Alerts
pub mod Permissions
pub mod Grants
pub mod Tokens
pub mod Warehouses
pub mod Statements
pub mod Scim
pub mod WorkspaceAdmin
pub mod ColumnTypes
pub mod UnityCatalog
pub mod Examples
