-- ===== src/Preflight/Ready.antt =====
-- Merging checks neither loses nor invents a failure.
use spark_pilot.Prelude.{◌≡◌, ◌∙◌, not, ◌&&◌, List, [], ◌∷◌, Bool-cases, str_eq, inl, inr, arith}
use spark_pilot.Preflight.Checks.{
  Check, merge_key, resolve_check, merge_check, upsert_preflight_check, add_checks, is_fail, ready,
}

resolve-fail :
    (existing incoming : Check)
    → (not (is_fail (resolve_check existing incoming).status))
      ≡ (not (is_fail existing.status) && not (is_fail incoming.status))
unfolding resolve_check merge_check
resolve-fail existing incoming = ground arith

pub ready-upsert :
    (checks : List Check) (incoming : Check)
    → ready (upsert_preflight_check checks incoming)
      ≡ (ready checks && not (is_fail incoming.status))
unfolding upsert_preflight_check
ready-upsert [] incoming = ground arith
ready-upsert (c ∷ checks) incoming = elim (Bool-cases (str_eq (merge_key c) (merge_key incoming))) [
  | inl e ↦ rw e (rw (resolve-fail c incoming) (ground arith))
  | inr e ↦ rw e (rw (ready-upsert checks incoming) (ground arith))
]

ready-add_checks :
    (checks emitted : List Check)
    → ready (add_checks checks emitted) ≡ (ready checks && ready emitted)
unfolding add_checks
ready-add_checks checks [] = ground arith
ready-add_checks checks (c ∷ emitted) =
    ready-add_checks (upsert_preflight_check checks c) emitted
    ∙ rw (ready-upsert checks c) (ground arith)

-- Whatever checks are emitted, in whatever order and however they are merged by their keys, the
-- preflight is ready exactly when none of the emitted checks fails.
pub ready_exact : (emitted : List Check) → ready (add_checks [] emitted) ≡ ready emitted
ready_exact emitted = ready-add_checks [] emitted
