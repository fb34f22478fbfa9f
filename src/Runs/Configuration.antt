-- ===== src/Runs/Configuration.antt =====
-- What a run is to be run with: `_resolve_run_configuration`, `_resolve_timeout_seconds` of
-- src/sparkpilot/services/crud.py, `_resolve_golden_path_for_run` of services/golden_paths.py and
-- `_validate_custom_spark_conf_policy` of services/_helpers.py.
use Prim.Native.String.{compare}
use Prim.Native.Nat.{Ordering, min}
use spark_pilot.Prelude.{
  ℕ, ◌*◌, String, Bool, false, not, ◌&&◌, ◌==◌, Option, none, some, List, [], ◌∷◌, Dict, insert,
  filter, any, find, is_some, is_none, is_blank, get_or, str_eq, starts_with, ltb, if◌then◌else◌,
}
use spark_pilot.Models.{
  Environment, Job, GoldenPath, Resources, RequestedResources, model_dump, Architecture,
}
use spark_pilot.Errors.{
  Result, ok, err, validation, text, timeout_above, golden_path_missing, ◌>>=◌,
}

-- `schemas.RunCreateRequest`
pub record RunCreateRequest : Type 0 where
  pub args : Option (List String)
  pub spark_conf : Option (Dict String)
  pub golden_path : Option String
  pub requested_resources : RequestedResources
  pub timeout_seconds : Option ℕ

abbrev pub forbidden_prefixes : List String
forbidden_prefixes =
    "spark.kubernetes.authenticate." ∷ "spark.kubernetes.driver.serviceAccountName"
    ∷ "spark.kubernetes.executor.serviceAccountName" ∷ []

unfoldable pub is_forbidden : String → Bool
is_forbidden key = any (λ prefix. starts_with key prefix) forbidden_prefixes

-- `sorted(set(...))`, one text at a time
unfoldable pub insert_sorted : String → List String → List String
insert_sorted k [] = k ∷ []
insert_sorted k (x ∷ xs) = elim (compare k x) [
  | Ordering.lt ↦ k ∷ x ∷ xs
  | Ordering.eq ↦ x ∷ xs
  | Ordering.gt ↦ x ∷ insert_sorted k xs
]

unfoldable pub sorted_set : List String → List String
unfolding insert_sorted
sorted_set [] = []
sorted_set (k ∷ ks) = insert_sorted k (sorted_set ks)

abbrev pub keys : Dict String → List String
keys [] = []
keys ((k, _) ∷ conf) = k ∷ keys conf

unfoldable pub validate_custom_spark_conf_policy : Dict String → List String
validate_custom_spark_conf_policy spark_conf = sorted_set (filter is_forbidden (keys spark_conf))

abbrev pub is_own : Environment → GoldenPath → Bool
is_own env path = elim path.environment_id [ none ↦ false | some id ↦ id == env.id ]

abbrev or_else : Option GoldenPath → Option GoldenPath → Option GoldenPath
or_else none b = b
or_else (some a) b = some a

-- `ORDER BY environment_id DESC` and the first row: which of the shared path and the environment's
-- own comes first is whether the database sorts nulls first.
unfoldable pub resolve_golden_path_for_run :
    (nulls_first : Bool) → List GoldenPath → Environment → String → Result GoldenPath
resolve_golden_path_for_run nulls_first paths env name =
    let named = filter (λ (path : GoldenPath). str_eq path.name name) paths in
    let own = find (is_own env) named in
    let shared = find (λ (path : GoldenPath). is_none path.environment_id) named in
    elim (if nulls_first then or_else shared own else or_else own shared) [
      | none ↦ err (validation (golden_path_missing name))
      | some path ↦ ok path
    ]

abbrev pub executor_arch : String
executor_arch = "spark.kubernetes.executor.node.selector.kubernetes.io/arch"

abbrev pub driver_arch : String
driver_arch = "spark.kubernetes.driver.node.selector.kubernetes.io/arch"

abbrev pub with_architecture : Architecture → Dict String → Dict String
with_architecture Architecture.arm64 conf =
    insert driver_arch "arm64" (insert executor_arch "arm64" conf)
with_architecture Architecture.x86_64 conf =
    insert driver_arch "amd64" (insert executor_arch "amd64" conf)
with_architecture Architecture.mixed conf = conf

abbrev pub Configuration : Type 0
Configuration = Option GoldenPath × Resources × Dict String

unfoldable pub resolve_run_configuration :
    (nulls_first : Bool) → List GoldenPath → Environment → RunCreateRequest → Result Configuration
resolve_run_configuration nulls_first paths env req =
    let name = get_or req.golden_path "" in
    if not (is_blank name) && is_some req.spark_conf
    then err (validation (text "Provide either golden_path or spark_conf overrides, not both."))
    else if is_blank name
    then ok (none, model_dump req.requested_resources, get_or req.spark_conf [])
    else do
      path ← resolve_golden_path_for_run nulls_first paths env name
      ok (
        some path,
        path.requested_resources_json,
        with_architecture path.instance_architecture path.spark_conf_json,
      )

-- `req.timeout_seconds or job.timeout_seconds`
abbrev pub asked_timeout : RunCreateRequest → Job → ℕ
asked_timeout req job = elim req.timeout_seconds [
  | none ↦ job.timeout_seconds
  | some n ↦ if n == 0 then job.timeout_seconds else n
]

abbrev pub capped_timeout : Option GoldenPath → ℕ → ℕ
capped_timeout none timeout = timeout
capped_timeout (some path) timeout = min timeout (path.max_runtime_minutes * 60)

unfoldable pub resolve_timeout_seconds :
    RunCreateRequest → Job → Environment → Option GoldenPath → Result ℕ
resolve_timeout_seconds req job env selected_golden_path =
    let timeout_seconds = capped_timeout selected_golden_path (asked_timeout req job) in
    if ltb env.max_run_seconds timeout_seconds
    then err (validation (timeout_above env.max_run_seconds))
    else ok timeout_seconds
