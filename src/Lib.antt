-- ===== src/Lib.antt =====
-- SparkPilot is a control plane for Spark jobs on AWS and Databricks: clients submit runs of jobs to
-- environments, workers dispatch the runs to a backend and follow them to their end, and their costs
-- are recorded. This library models its core and proves what the parts promise.
--
-- The parts, how they interact, and where they are modelled:
-- - Models: the rows of src/sparkpilot/models.py and schemas.py, and the audit log (audit.py).
-- - Policy: src/sparkpilot/policy_engine.py. Evaluators has the `_evaluate_*` functions, Engine the
--   selection and the loop of `evaluate_policies`, Reports what it is to report, Table the creation and deletion of policies.
-- - Quota: src/sparkpilot/quota.py, `enforce_quota_for_run`.
-- - Errors and Database: exceptions.py, and the lookups of services/_helpers.py on the tables.
-- - Runs: src/sparkpilot/services/crud.py. Configuration settles what a run is to be run with, Create
--   is `create_run`, which asks the policy engine and the quotas, and Cancel is `cancel_run`.
-- - Preflight: src/sparkpilot/services/preflight.py. Checks merges the checks and has the verdict and
--   the summary, Policies emits the checks of the policy engine, Cache is the scheduler's cache.
-- - Workers: Claims and Faults are services/workers_common.py, Scheduler is
--   services/workers_scheduling.py and Reconciler, with what it asks others in Cloud,
--   services/workers_reconciliation.py. The scheduler takes queued runs
--   through a preflight to a client of a backend, the reconciler asks EMR on EKS about accepted and
--   running ones and records their usage and diagnostics when they end.
-- - Environments: creation (Create, with the creation of jobs), retry and deletion of environments in
--   src/sparkpilot/services/crud.py.
-- - CostCenter: src/sparkpilot/cost_center.py, the policy of cost centres and its resolution.
-- - Provisioning: src/sparkpilot/services/workers_provisioning.py. Checkpoints are kept in the audit
--   log, Validations checks the resources, Stages runs the stages of a full environment, Process is
--   the handler of an operation, and Lite the setup of a BYOC-Lite environment that it calls.
-- - Finops: src/sparkpilot/services/finops.py. Usage is `_record_usage_if_needed`; Query, Athena and
--   Reconciliation are the reconciliation with the cost report, from the text of the query to
--   `process_cur_reconciliation_once`; Budgets has budgets, spend and showback, and the budget's check
--   of services/preflight.py.
-- - Accounts: Tables and Tenants are the tenants, teams, identities and scopes of services/crud.py;
--   Access is the access context and the tests on environments and runs of api.py; Invites, Provision
--   and Callback are the invites of services/internal_admin.py, with `get_auth_callback` of api.py;
--   InviteState is the signed state between acceptance and callback. Steps has all the calls as steps on
--   the tables, Writes, Calls, InviteCalls, CallbackCalls and Moves what they write.
-- - Idempotency: `with_idempotency` of src/sparkpilot/idempotency.py, which the routes wrap around the
--   services.
-- - System: the steps of all of these on one database, what they write, and what holds after any
--   sequence of them. A step reads the rows that it writes; a request that decides on a row it read
--   before another transaction changed it is no step.
-- - Samples has the rows that the Tests modules apply the theorems to; Prelude has what all share.
--
-- A service is a function of the tables that it reads, to a result with the tables that it writes; a
-- raise is an `err` without tables, since the transaction ends. A worker's handler is a function of
-- the claimed run and the session, as the code catches every exception of it; the provisioning worker
-- rolls nothing back, so a call of it that raises keeps the session. A call that leaves the
-- program (a client of a cloud, a preflight that asks AWS, prices, the calendar) is a parameter that
-- returns or raises; a query with an order the database chooses takes that order as a parameter, or,
-- where it has no order at all, returns the rows as its table lists them. A handler reads the clock once. Identifiers are numbers, times are microseconds, a text that the
-- program only formats is a constructor with what it is formatted from.
--
-- All loops run over lists and are structural recursion. The rounds of the scheduler on one run are
-- counted by a number, and as many as the job's attempts are enough for the run to leave the queue.
--
-- A wait for Athena polls at most once for each second of its timeout and once more, which is enough as
-- each round sleeps for at least a second.
--
-- Not modelled: the routes of the HTTP interface, the verification of tokens of OIDC and serialization;
-- the clients of the clouds; the checks of a preflight that query AWS, of which the verdict is proved
-- for any list of emitted checks; floating point prices; the webhook of a tenant's lifecycle and the
-- text of invite emails; the providers, the user interface and the infrastructure code.
pub mod Prelude
pub mod Models
pub mod Policy
pub mod Errors
pub mod Quota
pub mod Database
pub mod Runs
pub mod Workers
pub mod Preflight
pub mod Finops
pub mod Accounts
pub mod CostCenter
pub mod Environments
pub mod Provisioning
pub mod Idempotency
pub mod System
pub mod Samples
