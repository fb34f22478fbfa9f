-- ===== src/Finops/Reconciliation.antt =====
-- `process_cur_reconciliation_once` of src/sparkpilot/services/finops.py. Athena's client, the order of
-- a selection by its time of creation, the texts of run ids, and the clock are arguments. A call of
-- Athena that raises ends the transaction, as a `ValueError` does. The event's entity is a text, for
-- which 0 stands.
use spark_pilot.Prelude.{
  ℕ, String, Bool, not, ◌&&◌, ◌==◌, Option, none, some, List, Dict, lookup, map, any, filter, take,
  length, is_some, is_none, is_empty, is_blank, if◌then◌else◌,
}
use spark_pilot.Prelude.Strip.{strip}
use spark_pilot.Models.{
  Uuid, Time, CostAllocation, AuditEvent, write_audit_event, cost_reconciliation,
}
use spark_pilot.Finops.Query.{
  Checked, valid, invalid, ◌>>=◌, QuerySettings, Query, build_cur_reconciliation_query,
}
use spark_pilot.Finops.Athena.{
  QueryState, has_succeeded, wait_for_athena_query, Row, Page, collect_athena_result_rows,
  parse_athena_cost_rows,
}

pub record CostState : Type 0 where
  pub allocations : List CostAllocation
  pub audit : List AuditEvent

-- What Athena answers to one query: the start, the states by the round, the pages by the call.
pub record Athena : Type 0 where
  pub start_query_execution : Query → Checked String
  pub clock : ℕ → Time
  pub query_states : ℕ → QueryState
  pub pages : List Page

pub record CurSettings : Type 0 where
  pub query : QuerySettings
  pub cur_query_timeout_seconds : ℕ

-- `_cur_reconciliation_configured`
abbrev pub is_configured : QuerySettings → Bool
is_configured s =
    not (is_blank (strip s.cur_athena_database))
    && not (is_blank (strip s.cur_athena_table))
    && not (is_blank (strip s.cur_athena_output_location))

abbrev pub is_pending : CostAllocation → Bool
is_pending a = is_none a.actual_cost_usd_micros

abbrev pub has_run : Uuid → CostAllocation → Bool
has_run id a = a.run_id == id

module _ (ordered : List CostAllocation → List CostAllocation) (limit : ℕ) where
  -- `_load_pending_cost_allocations`
  unfoldable pub load_pending_cost_allocations : List CostAllocation → List CostAllocation
  load_pending_cost_allocations allocations = take limit (ordered (filter is_pending allocations))

module _ (text_of : Uuid → String) where
  abbrev pub set_actual : Time → ℕ → CostAllocation → CostAllocation
  set_actual now cost a = record a {
    actual_cost_usd_micros = some cost;
    cur_reconciled_at = some now;
  }

  abbrev pub apply_cost : Time → Option ℕ → CostAllocation → CostAllocation
  apply_cost now none a = a
  apply_cost now (some cost) a = set_actual now cost a

  -- `_apply_cur_cost_updates` on the rows of the table that are in `pending`, which the run id tells.
  unfoldable pub apply_cur_cost_updates :
      Time → (pending : List CostAllocation) → Dict ℕ → List CostAllocation → List CostAllocation
  apply_cur_cost_updates now pending costs allocations =
      map
        (λ (a : CostAllocation).
          if any (has_run a.run_id) pending
          then apply_cost now (lookup (text_of a.run_id) costs) a
          else a)
        allocations

  -- `changed`
  abbrev pub count_changed : List CostAllocation → Dict ℕ → ℕ
  count_changed pending costs =
      length (filter (λ (a : CostAllocation). is_some (lookup (text_of a.run_id) costs)) pending)

-- The rows of the query, or a raise.
abbrev pub finished_rows : Athena → Option QueryState → Checked (List Row)
finished_rows athena none = invalid "CUR Athena reconciliation query failed"
finished_rows athena (some state) =
    if has_succeeded state
    then valid (collect_athena_result_rows athena.pages)
    else invalid "CUR Athena reconciliation query failed"

module _ (lower : String → String) (micros : String → Option ℕ) (is_uuid : String → Bool)
    (text_of : Uuid → String) (ordered : List CostAllocation → List CostAllocation) (limit : ℕ)
    (athena : Athena) (now : Time) (actor : String) where
  abbrev pub reconciliation_event : ℕ → String → Query → AuditEvent
  reconciliation_event changed query_execution_id query = record {
    tenant_id = none;
    actor = actor;
    action = "cost.cur_reconciliation";
    source_ip = none;
    entity_type = "system";
    entity_id = 0;
    details_json = cost_reconciliation changed query_execution_id query.database query.table;
    aws_request_id = none;
  }

  abbrev pub store_costs :
      (pending : List CostAllocation)
      → Query
      → (query_execution_id : String) → Dict ℕ
      → CostState
      → ℕ × CostState
  store_costs pending query query_execution_id costs s =
      let changed = count_changed text_of pending costs in
      if changed == 0 then (0, s) else (
        changed,
        record {
          allocations = apply_cur_cost_updates text_of now pending costs s.allocations;
          audit = write_audit_event (reconciliation_event changed query_execution_id query) s.audit;
        },
      )

  abbrev pub run_query :
      CurSettings → (pending : List CostAllocation) → Query → CostState → Checked (ℕ × CostState)
  run_query settings pending query s = do
    query_execution_id ← athena.start_query_execution query
    rows ←
        finished_rows athena (
          wait_for_athena_query settings.cur_query_timeout_seconds athena.clock athena.query_states)
    valid
        (store_costs pending query query_execution_id (parse_athena_cost_rows lower micros rows) s)

  abbrev pub reconcile_pending :
      CurSettings → (pending : List CostAllocation) → CostState → Checked (ℕ × CostState)
  reconcile_pending settings pending s = if is_empty pending then valid (0, s) else do
    query ←
        build_cur_reconciliation_query is_uuid settings.query
          (map (λ (a : CostAllocation). text_of a.run_id) pending)
    if is_blank query.sql then valid (0, s) else run_query settings pending query s

  unfoldable pub process_cur_reconciliation_once : CurSettings → CostState → Checked (ℕ × CostState)
  process_cur_reconciliation_once settings s =
      if not (is_configured settings.query)
      then valid (0, s)
      else reconcile_pending settings (load_pending_cost_allocations ordered limit s.allocations) s
