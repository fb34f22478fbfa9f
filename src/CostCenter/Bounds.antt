-- ===== src/CostCenter/Bounds.antt =====
-- A resolved cost centre fits its column and is not empty.
use Prim.Native.String.{[], ◌∷◌}
use spark_pilot.Prelude.{
  ℕ, zero, suc, ◌≤◌, ◌≡◌, refl, subst, inl, inr, String, false, not, ◌&&◌, Option, none, some, Dict,
  lookup, insert, is_blank, is_some, str_eq, Bool-cases, arith,
}
use spark_pilot.Prelude.Strip.{strip, is_blank-cons}
use spark_pilot.Models.{Uuid, Environment}
use spark_pilot.Finops.Query.{Checked, valid, invalid, bind, valid-injective}
use spark_pilot.CostCenter.{
  prefix, Field, Payload, Json, CostCenterPolicy, normalize_value, validate_entries,
  validate_mapping, virtual_cluster_field, all_supported, keep_default, read_default, read_policy,
  parse_cost_center_policy, or_mapped, resolve_from_policy, or_fallback, resolve_fallback,
  resolution_inputs, or_else, resolve_cost_center_for_environment,
}
use mathlib.Core.List as L

-- The number of code points.
abbrev pub size : String → ℕ
size [] = 0
size (c ∷ s) = suc (size s)

abbrev pub IsCostCenter : String → Type 0
IsCostCenter c = (is_blank c ≡ false) × (size c ≤ 255)

prefix-size : (n : ℕ) (s : String) → size (prefix n s) ≤ n
unfolding prefix
prefix-size zero s = omega arith
prefix-size (suc n) [] = omega arith
prefix-size (suc n) (c ∷ s) = omega (arith, prefix-size n s)

prefix-filled : (n : ℕ) (s : String) → is_blank s ≡ false → is_blank (prefix (suc n) s) ≡ false
unfolding prefix
prefix-filled n [] h = cc
prefix-filled n (c ∷ s) h = is_blank-cons c (prefix n s)

prefix-IsCostCenter : (s : String) → is_blank s ≡ false → IsCostCenter (prefix 255 s)
prefix-IsCostCenter s h = (prefix-filled 254 s h, prefix-size 255 s)

normalized-IsCostCenter : (value c : String) → normalize_value value ≡ valid c → IsCostCenter c
unfolding normalize_value
normalized-IsCostCenter value c h = elim (Bool-cases (is_blank (strip value))) [
  | inl e ↦ absurd (wrong (rw e at h))
  | inr e ↦ subst IsCostCenter (valid-injective (rw e at h)) (prefix-IsCostCenter (strip value) e)
]
  where
    wrong : invalid "values must be non-empty strings." ≡ valid c → ⊥
    wrong k = cc

-- Every value of a mapping is a cost centre.
abbrev AllValues : Dict String → Type 0
AllValues L.[] = Unit
AllValues (L.◌∷◌ (key, value) entries) = IsCostCenter value × AllValues entries

abbrev IsValue : Option String → Type 0
IsValue none = Unit
IsValue (some value) = IsCostCenter value

insert-AllValues :
    (key value : String) (entries : Dict String)
    → IsCostCenter value
    → AllValues entries
    → AllValues (insert key value entries)
insert-AllValues key value L.[] v h = (v, tt)
insert-AllValues key value (L.◌∷◌ (k, w) entries) v h = elim (Bool-cases (str_eq k key)) [
  | inl e ↦ rw e (v, h.1)
  | inr e ↦ rw e (h.0, insert-AllValues key value entries v h.1)
]

lookup-IsValue :
    (key : String) (entries : Dict String) → AllValues entries → IsValue (lookup key entries)
lookup-IsValue key L.[] h = tt
lookup-IsValue key (L.◌∷◌ (k, w) entries) h = elim (Bool-cases (str_eq k key)) [
  | inl e ↦ rw e h.0
  | inr e ↦ rw e (lookup-IsValue key entries h.1)
]

entries-AllValues :
    (out entries values : Dict String)
    → AllValues out
    → validate_entries out entries ≡ valid values
    → AllValues values
unfolding validate_entries
entries-AllValues out L.[] values v h = subst AllValues (valid-injective h) v
entries-AllValues out (L.◌∷◌ (k, w) entries) values v h = elim (Bool-cases (is_blank (strip k))) [
  | inl e ↦ absurd (wrong (rw e at h))
  | inr e ↦
      let (c, normalized, rest) = bind (normalize_value w) _ (rw e at h) in
      entries-AllValues (insert (strip k) c out) entries values
        (insert-AllValues (strip k) c out (normalized-IsCostCenter w c normalized) v) rest
]
  where
    wrong : invalid "keys must be non-empty strings." ≡ valid values → ⊥
    wrong j = cc

mapping-AllValues :
    (field : Option Field) (values : Dict String)
    → validate_mapping field ≡ valid values
    → AllValues values
mapping-AllValues none values h = subst AllValues (valid-injective h) tt
mapping-AllValues (some Field.null) values h = subst AllValues (valid-injective h) tt
mapping-AllValues (some (Field.mapping entries)) values h =
    entries-AllValues L.[] entries values tt h
mapping-AllValues (some (Field.scalar s)) values h = cc

kept-IsValue :
    (value : String) (d : Option String)
    → keep_default (normalize_value value) ≡ valid d
    → IsValue d
kept-IsValue value d h = go (normalize_value value) refl h
  where
    go : (m : Checked String) → normalize_value value ≡ m → keep_default m ≡ valid d → IsValue d
    go (invalid e) same k = cc
    go (valid c) same k = subst IsValue (valid-injective k) (normalized-IsCostCenter value c same)

default-IsValue :
    (json : Json) (field : Option Field) (d : Option String)
    → read_default json field ≡ valid d
    → IsValue d
default-IsValue json none d h = subst IsValue (valid-injective h) tt
default-IsValue json (some Field.null) d h = subst IsValue (valid-injective h) tt
default-IsValue json (some (Field.mapping entries)) d h = kept-IsValue (json.str_of entries) d h
default-IsValue json (some (Field.scalar value)) d h = kept-IsValue value d h

record IsBounded (policy : CostCenterPolicy) : Type 0 where
  namespaces : AllValues policy.by_namespace
  clusters : AllValues policy.by_virtual_cluster_id
  teams : AllValues policy.by_team
  otherwise : IsValue policy.default_value

read-IsBounded :
    (json : Json) (payload : Payload) (policy : CostCenterPolicy)
    → read_policy json payload ≡ valid policy
    → IsBounded policy
read-IsBounded json Payload.malformed policy h = cc
read-IsBounded json Payload.not_object policy h = cc
read-IsBounded json (Payload.object fields) policy h = elim (Bool-cases (all_supported fields)) [
  | inl e ↦
      let (ns, vn, h1) = bind (validate_mapping (lookup "by_namespace" fields)) _ (rw e at h) in
      let (vc, vv, h2) = bind (validate_mapping (virtual_cluster_field fields)) _ h1 in
      let (team, vt, h3) = bind (validate_mapping (lookup "by_team" fields)) _ h2 in
      let (other, vo, h4) = bind (read_default json (lookup "default" fields)) _ h3 in
      subst IsBounded (valid-injective h4) (record {
        namespaces = mapping-AllValues (lookup "by_namespace" fields) ns vn;
        clusters = mapping-AllValues (virtual_cluster_field fields) vc vv;
        teams = mapping-AllValues (lookup "by_team" fields) team vt;
        otherwise = default-IsValue json (lookup "default" fields) other vo;
      })
  | inr e ↦ absurd (wrong (rw e at h))
]
  where
    wrong : invalid "contains unsupported keys" ≡ valid policy → ⊥
    wrong k = cc

parsed-IsBounded :
    (json : Json) (raw : String) (policy : CostCenterPolicy)
    → parse_cost_center_policy json raw ≡ valid policy
    → IsBounded policy
unfolding parse_cost_center_policy
parsed-IsBounded json raw policy h = elim (Bool-cases (is_blank (strip raw))) [
  | inl e ↦
      subst IsBounded (valid-injective (rw e at h))
        (record { namespaces = tt; clusters = tt; teams = tt; otherwise = tt })
  | inr e ↦ read-IsBounded json (json.loads (strip raw)) policy (rw e at h)
]

mapped-IsValue :
    (key : String) (table : Dict String) (later : Option String)
    → AllValues table
    → IsValue later
    → IsValue (or_mapped key table later)
mapped-IsValue key table later t h =
    elim (Bool-cases (not (is_blank key) && is_some (lookup key table))) [
      | inl e ↦ rw e (lookup-IsValue key table t)
      | inr e ↦ rw e h
    ]

fallback-IsCostCenter :
    (fallback later : String) → IsCostCenter later → IsCostCenter (or_fallback fallback later)
fallback-IsCostCenter fallback later h = elim (Bool-cases (is_blank fallback)) [
  | inl e ↦ rw e h
  | inr e ↦ rw e (prefix-IsCostCenter fallback e)
]

else-IsCostCenter :
    (value : Option String) (fallback : String)
    → IsValue value
    → IsCostCenter fallback
    → IsCostCenter (or_else value fallback)
else-IsCostCenter none fallback v f = f
else-IsCostCenter (some value) fallback v f = rw v.0 v

-- Whatever the policy's JSON and the environment's columns say, a cost centre that is resolved is not
-- empty and has at most 255 characters, the length of its column.
pub resolved-IsCostCenter :
    (json : Json) (text_of : Uuid → String) (policy_json : String) (env : Environment) (c : String)
    → resolve_cost_center_for_environment json text_of policy_json env ≡ valid c
    → IsCostCenter c
unfolding resolve_cost_center_for_environment resolve_from_policy resolve_fallback
resolved-IsCostCenter json text_of policy_json env c h =
    let (policy, parsed, h1) = bind (parse_cost_center_policy json policy_json) _ h in
    let b = parsed-IsBounded json policy_json policy parsed in
    let i = resolution_inputs text_of env in
    subst IsCostCenter (valid-injective h1) (
      else-IsCostCenter (resolve_from_policy policy i) (resolve_fallback i)
        (mapped-IsValue i.virtual_cluster_id policy.by_virtual_cluster_id _ b.clusters (
          mapped-IsValue i.namespace policy.by_namespace _ b.namespaces
            (mapped-IsValue i.tenant_id policy.by_team _ b.teams b.otherwise)))
        (fallback-IsCostCenter i.namespace _ (
          fallback-IsCostCenter i.virtual_cluster_id _
            (fallback-IsCostCenter i.environment_id "unmapped" (refl, omega arith)))))
