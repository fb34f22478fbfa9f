-- ===== src/Provisioning/Trusted.antt =====
-- What the setup of a BYOC-Lite environment has found where it returns.
use spark_pilot.Prelude.{◌≡◌, refl, sym, ap, String, Bool, true, false, Option, none, some, arith}
use spark_pilot.Models.{Environment}
use spark_pilot.Workers.Faults.{Attempt, raised, returned}
use spark_pilot.Provisioning.Validations.{Work, ◌>=>◌, continue, ask, require}
use spark_pilot.Provisioning.Lite.{
  PodIdentity, Oidc, EmrClient, detected, set_identity_mode, note, outcome, audited_trust,
  update_trust, record_identity, oidc_and_trust_setup,
}

abbrev pub mode_of : Option PodIdentity → String
mode_of none = "irsa"
mode_of (some agent) = "pod_identity"

-- The environment is associated and its role trusts it.
abbrev pub IsTrusted : EmrClient → Environment → Type 0
IsTrusted emr env =
    ((oidc : Oidc) × (emr.check_oidc_provider_association env ≡ returned oidc)
      × (oidc.associated ≡ true))
    × ((text : String) × (emr.update_execution_role_trust_policy env ≡ returned text))

module _ (actor : String) (emr : EmrClient) where
  trust-parts :
      (answer : Attempt String) (w w' : Work)
      → audited_trust actor emr answer w ≡ (w', returned tt)
      → (w'.environment ≡ w.environment) × ((text : String) × (answer ≡ returned text))
  trust-parts (returned text) w w' h =
      (sym (ap (λ (x : Work × Attempt (Unit {0})). x.0.environment) h), (text, refl))
  trust-parts (raised fault) w w' h = absurd (ground arith)

  -- From the answer about the OIDC provider on.
  associated-parts :
      (answer : Attempt Oidc) (w w' : Work)
      → continue
          (w, answer)
          (λ oidc.
            note actor emr "environment.byoc_lite_oidc_checked" (outcome actor emr oidc.text)
            >=> λ _.
                require oidc.associated
                  "OIDC provider is not associated for the target EKS cluster."
                >=> λ _. update_trust actor emr)
        ≡ (w', returned tt)
      → (w'.environment ≡ w.environment)
        × ((oidc : Oidc) × (answer ≡ returned oidc) × (oidc.associated ≡ true))
        × ((text : String) × (emr.update_execution_role_trust_policy w.environment ≡ returned text))
  associated-parts (raised fault) w w' h = absurd (ground arith)
  associated-parts (returned oidc) w w' h = required oidc.associated refl h
    where
      required :
          (b : Bool)
          → oidc.associated ≡ b
          → continue
              (note actor emr "environment.byoc_lite_oidc_checked" (outcome actor emr oidc.text) w)
              (λ _. require b "OIDC provider is not associated for the target EKS cluster." >=> λ _.
                update_trust actor emr)
            ≡ (w', returned tt)
          → (w'.environment ≡ w.environment)
            × ((o : Oidc) × (returned oidc ≡ returned o) × (o.associated ≡ true))
            × ((text : String) × (emr.update_execution_role_trust_policy w.environment
                  ≡ returned text))
      required false e k = absurd (ground arith)
      required true e k =
          let (same, (text, answered)) =
            trust-parts (emr.update_execution_role_trust_policy w.environment) _ w' k in
          (same, (oidc, refl, e), (text, answered))

  -- Where the setup of identity and trust returns, the environment has the mode pod identity exactly where
  -- its agent is installed and active, and IRSA if not, nothing else of it is changed, its cluster has an
  -- OIDC provider, and its execution role trusts it.
  pub oidc_and_trust_setup_lem :
      (w w' : Work)
      → oidc_and_trust_setup actor emr w ≡ (w', returned tt)
      → (w'.environment
          ≡ set_identity_mode
              (mode_of (detected (emr.check_pod_identity_agent w.environment)))
              w.environment)
        × IsTrusted emr w'.environment
  unfolding oidc_and_trust_setup
  oidc_and_trust_setup_lem w w' h =
      by_identity (detected (emr.check_pod_identity_agent w.environment)) h
    where
      by_identity :
          (found : Option PodIdentity)
          → (record_identity actor emr found >=> λ _.
                ask emr.check_oidc_provider_association >=> λ oidc.
                note actor emr "environment.byoc_lite_oidc_checked" (outcome actor emr oidc.text)
                >=> λ _.
                    require oidc.associated
                      "OIDC provider is not associated for the target EKS cluster."
                    >=> λ _. update_trust actor emr)
              w
            ≡ (w', returned tt)
          → (w'.environment ≡ set_identity_mode (mode_of found) w.environment)
            × IsTrusted emr w'.environment
      by_identity none k =
          let (same, oidc, text) =
            associated-parts
              (emr.check_oidc_provider_association (set_identity_mode "irsa" w.environment)) _ w'
              k in
          (same, rw same (oidc, text))
      by_identity (some agent) k =
          let (same, oidc, text) =
            associated-parts
              (emr.check_oidc_provider_association (set_identity_mode "pod_identity" w.environment))
              _ w' k in
          (same, rw same (oidc, text))
