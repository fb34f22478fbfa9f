-- ===== src/CostCenter.antt =====
-- The cost centre of an environment (src/sparkpilot/cost_center.py). JSON is a parameter. A value is
-- given by its `str`, and so is a whole mapping where the policy's default is one. The cache returns
-- what it was given, as the parsed policy is never changed. An error's detail is its first clause.
use Prim.Native.Char.{Char}
use Prim.Native.String.{[], ◌∷◌}
use spark_pilot.Prelude.{
  ℕ, zero, suc, String, Bool, true, not, ◌&&◌, Option, none, some, Dict, lookup, insert, contains,
  get_or, is_blank, is_some, if◌then◌else◌,
}
use spark_pilot.Prelude.Strip.{strip}
use spark_pilot.Models.{Uuid, Environment}
use spark_pilot.Finops.Query.{Checked, valid, invalid, ◌>>=◌}
use mathlib.Core.List as L
use mathlib.Core.List.{List}
pub mod Bounds
mod Tests

-- `value[:n]`
unfoldable pub prefix : ℕ → String → String
prefix zero s = ""
prefix (suc n) [] = ""
prefix (suc n) (c ∷ s) = c ∷ prefix n s

abbrev pub max_cost_center_length : ℕ
max_cost_center_length = 255

-- A field of the policy: `None`, an object with the `str` of its values, or any other value's `str`.
pub data Field : Type 0 where
  null : Field
  mapping : Dict String → Field
  scalar : String → Field

pub data Payload : Type 0 where
  malformed not_object : Payload
  object : Dict Field → Payload

pub record Json : Type 0 where
  pub loads : String → Payload
  pub str_of : Dict String → String

pub record CostCenterPolicy : Type 0 where
  pub by_namespace : Dict String
  pub by_virtual_cluster_id : Dict String
  pub by_team : Dict String
  pub default_value : Option String

pub record CostCenterResolutionInputs : Type 0 where
  pub tenant_id : String
  pub namespace : String
  pub virtual_cluster_id : String
  pub environment_id : String

-- `_normalize_value`
unfoldable pub normalize_value : String → Checked String
normalize_value value =
    let text = strip value in
    if is_blank text
    then invalid "values must be non-empty strings."
    else valid (prefix max_cost_center_length text)

-- The loop of `_validate_mapping`, with the dict so far.
unfoldable pub validate_entries : Dict String → Dict String → Checked (Dict String)
validate_entries out L.[] = valid out
validate_entries out (L.◌∷◌ (raw_key, raw_value) entries) =
    let key = strip raw_key in
    if is_blank key
    then invalid "keys must be non-empty strings."
    else do value ← normalize_value raw_value; validate_entries (insert key value out) entries

abbrev pub validate_mapping : Option Field → Checked (Dict String)
validate_mapping none = valid L.[]
validate_mapping (some Field.null) = valid L.[]
validate_mapping (some (Field.mapping entries)) = validate_entries L.[] entries
validate_mapping (some (Field.scalar _)) =
    invalid "must be a JSON object of string->string mappings."

abbrev pub supported_policy_keys : List String
supported_policy_keys = L.◌∷◌ "by_namespace" (
    L.◌∷◌ "by_virtual_cluster_id"
      (L.◌∷◌ "by_virtual_cluster" (L.◌∷◌ "by_team" (L.◌∷◌ "default" L.[]))))

unfoldable pub all_supported : Dict Field → Bool
all_supported L.[] = true
all_supported (L.◌∷◌ (key, _) fields) = contains supported_policy_keys key && all_supported fields

-- `payload.get("by_virtual_cluster_id", payload.get("by_virtual_cluster"))`
abbrev pub virtual_cluster_field : Dict Field → Option Field
virtual_cluster_field payload =
    if is_some (lookup "by_virtual_cluster_id" payload)
    then lookup "by_virtual_cluster_id" payload
    else lookup "by_virtual_cluster" payload

abbrev pub empty_policy : CostCenterPolicy
empty_policy = record {
  by_namespace = L.[];
  by_virtual_cluster_id = L.[];
  by_team = L.[];
  default_value = none;
}

abbrev pub keep_default : Checked String → Checked (Option String)
keep_default (invalid e) = invalid e
keep_default (valid value) = valid (some value)

module _ (json : Json) where
  abbrev pub read_default : Option Field → Checked (Option String)
  read_default none = valid none
  read_default (some Field.null) = valid none
  read_default (some (Field.mapping entries)) = keep_default (normalize_value (json.str_of entries))
  read_default (some (Field.scalar value)) = keep_default (normalize_value value)

  abbrev pub read_policy : Payload → Checked CostCenterPolicy
  read_policy Payload.malformed = invalid "must be valid JSON"
  read_policy Payload.not_object = invalid "must be a JSON object."
  read_policy (Payload.object payload) =
      if not (all_supported payload) then invalid "contains unsupported keys" else do
        by_namespace ← validate_mapping (lookup "by_namespace" payload)
        by_virtual_cluster ← validate_mapping (virtual_cluster_field payload)
        by_team ← validate_mapping (lookup "by_team" payload)
        default_value ← read_default (lookup "default" payload)
        valid (record {
          by_namespace = by_namespace;
          by_virtual_cluster_id = by_virtual_cluster;
          by_team = by_team;
          default_value = default_value;
        })

  -- `parse_cost_center_policy`
  unfoldable pub parse_cost_center_policy : String → Checked CostCenterPolicy
  parse_cost_center_policy raw_policy =
      let raw = strip raw_policy in
      if is_blank raw then valid empty_policy else read_policy (json.loads raw)

-- `if key and key in mapping: return mapping[key]`, and what comes after.
abbrev pub or_mapped : String → Dict String → Option String → Option String
or_mapped key table later =
    if not (is_blank key) && is_some (lookup key table) then lookup key table else later

-- `_resolve_cost_center_from_policy`
unfoldable pub resolve_from_policy : CostCenterPolicy → CostCenterResolutionInputs → Option String
resolve_from_policy policy inputs =
    or_mapped inputs.virtual_cluster_id policy.by_virtual_cluster_id (
      or_mapped inputs.namespace policy.by_namespace
        (or_mapped inputs.tenant_id policy.by_team policy.default_value))

abbrev pub or_fallback : String → String → String
or_fallback fallback later =
    if is_blank fallback then later else prefix max_cost_center_length fallback

-- `_resolve_cost_center_fallback`
unfoldable pub resolve_fallback : CostCenterResolutionInputs → String
resolve_fallback inputs =
    or_fallback inputs.namespace
      (or_fallback inputs.virtual_cluster_id (or_fallback inputs.environment_id "unmapped"))

-- `_normalize_resolution_inputs`
abbrev pub resolution_inputs : (text_of : Uuid → String) → Environment → CostCenterResolutionInputs
resolution_inputs text_of env = record {
  tenant_id = strip (text_of env.tenant_id);
  namespace = strip (get_or env.eks_namespace "");
  virtual_cluster_id = strip (get_or env.emr_virtual_cluster_id "");
  environment_id = strip (text_of env.id);
}

-- `resolved or fallback`
abbrev pub or_else : Option String → String → String
or_else none fallback = fallback
or_else (some value) fallback = if is_blank value then fallback else value

unfoldable pub resolve_cost_center_for_environment :
    Json → (text_of : Uuid → String) → (policy_json : String) → Environment → Checked String
resolve_cost_center_for_environment json text_of policy_json env = do
  policy ← parse_cost_center_policy json policy_json
  let inputs = resolution_inputs text_of env
  valid (or_else (resolve_from_policy policy inputs) (resolve_fallback inputs))
