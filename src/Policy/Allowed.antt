-- ===== src/Policy/Allowed.antt =====
-- The evaluators of allowed values against what a list of allowed values means.
use spark_pilot.Prelude.{
  ◌≡◌, ◌≢◌, refl, inl, ◌↔◌, ◌⊎◌, String, Bool, true, false, List, [], ◌∷◌, get_or, lookup, contains,
  eq_iff, arith,
}
use spark_pilot.Models.{Policy}
use spark_pilot.Policy.Evaluators.{
  Parameters, or_empty, among_allowed, golden_verdict, security_verdict, node_selector_key,
  evaluate_allowed_golden_paths, evaluate_allowed_release_labels, evaluate_allowed_instance_types,
  evaluate_allowed_security_configurations,
}

-- Membership, by recursion.
abbrev pub OneOf : String → List String → Type 0
OneOf v [] = ⊥
OneOf v (x ∷ xs) = (x ≡ v) ⊎ OneOf v xs

pub contains_iff : (xs : List String) (v : String) → (contains xs v ≡ true) ↔ OneOf v xs
contains_iff [] v = (λ h. cc, λ h. absurd h)
contains_iff (x ∷ xs) v =
    let (there, back) = contains_iff xs v in
    (λ h. ground (arith, eq_iff x v, there), λ h. ground (arith, eq_iff x v, back))

-- A restriction that binds only a value that is given.
abbrev pub Permitted : List String → String → Type 0
Permitted allowed value = (allowed ≡ []) ⊎ (value ≡ "") ⊎ OneOf value allowed

among_allowed_lem :
    (allowed : List String) (value : String)
    → ((among_allowed allowed value).passed ≡ true) ↔ Permitted allowed value
among_allowed_lem [] value = (λ h. inl refl, λ h. refl)
among_allowed_lem (x ∷ xs) value =
    let (listed, back) = contains_iff (x ∷ xs) value in
    (λ h. ground (arith, eq_iff value "", listed), λ h. ground (arith, eq_iff value "", back))

-- The rules on release labels and instance types pass exactly when the policy lists nothing, the
-- run names nothing, or what it names is listed.
pub allowed_exact :
    (policy : Policy) (req : Parameters)
    → (((evaluate_allowed_release_labels policy req).passed ≡ true)
        ↔ Permitted policy.config_json.allowed (get_or req.release_label ""))
      × (((evaluate_allowed_instance_types policy req).passed ≡ true)
          ↔ Permitted policy.config_json.allowed
              (get_or (lookup node_selector_key (or_empty req.spark_conf)) ""))
unfolding evaluate_allowed_release_labels evaluate_allowed_instance_types
allowed_exact policy req = (
  among_allowed_lem policy.config_json.allowed (get_or req.release_label ""),
  among_allowed_lem policy.config_json.allowed
      (get_or (lookup node_selector_key (or_empty req.spark_conf)) ""),
)

-- What the rule on golden paths lets through.
abbrev pub GoldenPermitted : Bool → List String → String → Type 0
GoldenPermitted required allowed value =
    (allowed ≡ []) ⊎ ((value ≡ "") × (required ≡ false)) ⊎ ((value ≢ "") × OneOf value allowed)

golden_lem :
    (required : Bool) (allowed : List String) (value : String)
    → ((golden_verdict required allowed value).passed ≡ true)
      ↔ GoldenPermitted required allowed value
golden_lem required [] value = (λ h. inl refl, λ h. refl)
golden_lem required (x ∷ xs) value =
    let (listed, back) = contains_iff (x ∷ xs) value in
    (λ h. ground (arith, eq_iff value "", listed), λ h. ground (arith, eq_iff value "", back))

-- The rule on golden paths passes exactly when the policy lists none (whether or not it requires
-- one), when the run names none and none is required, or when the run names a listed one.
pub golden_paths_exact :
    (policy : Policy) (req : Parameters)
    → ((evaluate_allowed_golden_paths policy req).passed ≡ true)
      ↔ GoldenPermitted policy.config_json.require_golden_path policy.config_json.allowed
          (get_or req.golden_path "")
unfolding evaluate_allowed_golden_paths
golden_paths_exact policy req =
    golden_lem policy.config_json.require_golden_path policy.config_json.allowed
      (get_or req.golden_path "")

-- What the rule on security configurations lets through.
abbrev pub SecurityPermitted : Bool → List String → String → Type 0
SecurityPermitted required allowed value =
    ((value ≡ "") × (required ≡ false))
    ⊎ ((allowed ≡ []) × (required ≡ false))
    ⊎ ((value ≢ "") × ((allowed ≡ []) ⊎ OneOf value allowed))

security_lem :
    (required : Bool) (allowed : List String) (value : String)
    → ((security_verdict required allowed value).passed ≡ true)
      ↔ SecurityPermitted required allowed value
security_lem required [] value =
    (λ h. ground (arith, eq_iff value ""), λ h. ground (arith, eq_iff value ""))
security_lem required (x ∷ xs) value =
    let (listed, back) = contains_iff (x ∷ xs) value in
    (λ h. ground (arith, eq_iff value "", listed), λ h. ground (arith, eq_iff value "", back))

-- The rule on security configurations passes exactly when the run names none and none is required,
-- when the policy neither lists nor requires any, or when the run names one and it is listed or
-- the policy lists none.
pub security_configurations_exact :
    (policy : Policy) (req : Parameters)
    → ((evaluate_allowed_security_configurations policy req).passed ≡ true)
      ↔ SecurityPermitted policy.config_json.require_security_configuration
          policy.config_json.allowed
          (get_or req.security_configuration_id "")
unfolding evaluate_allowed_security_configurations
security_configurations_exact policy req =
    security_lem policy.config_json.require_security_configuration policy.config_json.allowed
      (get_or req.security_configuration_id "")
