-- ===== src/Policy/Tags.antt =====
-- `_evaluate_required_tags` against what it means for a configuration to carry the tags.
use spark_pilot.Prelude.{
  String, ◌≡◌, ◌≢◌, ◌↔◌, ◌⊎◌, refl, true, Option, none, some, List, [], ◌∷◌, Dict, lookup, All,
  is_empty, if◌then◌else◌, get_or, eq_iff, arith,
}
use spark_pilot.Models.{Policy, no_required_tags}
use spark_pilot.Policy.Evaluators.{
  append_missing, tags_verdict, pass, Parameters, or_empty, label_key, missing_tag, collect_missing,
  evaluate_required_tags,
}

-- A tag with a value wants this value as the driver's label; one without wants some label.
abbrev pub Carries : Dict String → String × String → Type 0
Carries conf (tag_key, expected) =
    let actual = get_or (lookup (label_key tag_key) conf) "" in
    ((expected ≢ "") × (actual ≡ expected)) ⊎ ((expected ≡ "") × (actual ≢ ""))

missing_tag-none :
    (conf : Dict String) (k e : String) → (missing_tag conf k e ≡ none) ↔ Carries conf (k, e)
unfolding missing_tag
missing_tag-none conf k e =
    let actual = get_or (lookup (label_key k) conf) "" in
    (
      λ h. ground (arith, eq_iff e "", eq_iff actual e, eq_iff actual ""),
      λ h. ground (arith, eq_iff e "", eq_iff actual e, eq_iff actual ""),
    )

-- Both directions of `missing_tag-none`, as the loop uses them.
collect_missing-nil :
    (conf required : Dict String)
    → All (Carries conf) required
    → collect_missing conf required [] ≡ []
unfolding collect_missing
collect_missing-nil conf [] h = refl
collect_missing-nil conf ((k, e) ∷ required) h =
    rw ((missing_tag-none conf k e).1 h.0) (collect_missing-nil conf required h.1)

append_missing-nil :
    (missing : List String) (o : Option String)
    → append_missing missing o ≡ []
    → (missing ≡ []) × (o ≡ none)
append_missing-nil missing none h = (h, refl)
append_missing-nil [] (some t) h = cc
append_missing-nil (x ∷ missing) (some t) h = cc

collect_missing-All :
    (conf required : Dict String) (missing : List String)
    → collect_missing conf required missing ≡ []
    → (missing ≡ []) × All (Carries conf) required
unfolding collect_missing
collect_missing-All conf [] missing h = (h, tt)
collect_missing-All conf ((k, e) ∷ required) missing h =
    let found = missing_tag conf k e in
    let (now, later) = collect_missing-All conf required (append_missing missing found) h in
    let (before, absent) = append_missing-nil missing found now in
    (before, ((missing_tag-none conf k e).0 absent, later))

tags_verdict-passed :
    (missing : List String) → ((tags_verdict missing).passed ≡ true) ↔ (missing ≡ [])
tags_verdict-passed [] = (λ _. refl, λ _. refl)
tags_verdict-passed (t ∷ missing) = (λ h. cc, λ h. cc)

-- The rule on required tags passes exactly when the run's Spark configuration carries every tag of
-- the policy: the wanted value under the tag's driver label, or any label at all for a tag that
-- names no value.
pub required_tags_exact :
    (policy : Policy) (req : Parameters)
    → ((evaluate_required_tags policy req).passed ≡ true)
      ↔ All (Carries (or_empty req.spark_conf)) policy.config_json.tags
unfolding evaluate_required_tags
required_tags_exact policy req = by_tags policy.config_json.tags
  where
    by_tags :
        (tags : Dict String)
        → ((if is_empty tags
              then pass no_required_tags
              else tags_verdict (collect_missing (or_empty req.spark_conf) tags [])).passed
            ≡ true)
          ↔ All (Carries (or_empty req.spark_conf)) tags
    by_tags [] = (λ _. tt, λ _. refl)
    by_tags ((k, e) ∷ tags) =
        let conf = or_empty req.spark_conf in
        let required = (k, e) ∷ tags in
        let exact = tags_verdict-passed (collect_missing conf required []) in
        (
          λ h. (collect_missing-All conf required [] (exact.0 h)).1,
          λ h. exact.1 (collect_missing-nil conf required h),
        )
