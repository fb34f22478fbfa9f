-- ===== src/Preflight/Checks.antt =====
-- `_upsert_preflight_check`, `_preflight_summary`, `_add_policy_engine_checks` and the verdict of
-- `_build_preflight`, all of src/sparkpilot/services/preflight.py. A detail's value is its text.
use spark_pilot.Prelude.{
  ℕ, String, Bool, true, false, not, ◌&&◌, Option, List, [], ◌∷◌, Dict, lookup, insert, all, ltb,
  ◌==◌, is_some, is_blank, get_or, str_eq, str_append, starts_with, if◌then◌else◌,
}

pub data Status : Type 0 where
  pass warning fail : Status

-- `CHECK_STATUS_PRIORITY`, `_check_status_priority`
abbrev pub check_status_priority : Status → ℕ
check_status_priority Status.pass = 0
check_status_priority Status.warning = 1
check_status_priority Status.fail = 2

pub record Check : Type 0 where
  pub code : String
  pub status : Status
  pub message : String
  pub remediation : Option String
  pub details : Dict String

-- `_preflight_check_merge_key`
unfoldable pub preflight_check_merge_key : String → Dict String → String
preflight_check_merge_key code details =
    let policy_id = get_or (lookup "policy_id" details) "" in
    if starts_with code "policy." && not (is_blank policy_id)
    then str_append code (str_append ":" policy_id)
    else code

abbrev pub merge_key : Check → String
merge_key c = preflight_check_merge_key c.code c.details

-- `merged_details.setdefault(key, value)` for each detail
unfoldable pub set_defaults : Dict String → Dict String → Dict String
set_defaults merged [] = merged
set_defaults merged ((k, v) ∷ details) =
    set_defaults (if is_some (lookup k merged) then merged else insert k v merged) details

abbrev given : Option String → Bool
given o = not (is_blank (get_or o ""))

-- Equal severity: the first message stays, what is missing is filled in.
unfoldable pub merge_check : Check → Check → Check
merge_check existing incoming = record existing {
  message = if is_blank existing.message then incoming.message else existing.message;
  remediation =
      if given incoming.remediation && not (given existing.remediation)
      then incoming.remediation
      else existing.remediation;
  details = set_defaults existing.details incoming.details;
}

-- What takes the place of a check with the same key.
unfoldable pub resolve_check : Check → Check → Check
resolve_check existing incoming =
    if ltb (check_status_priority existing.status) (check_status_priority incoming.status)
    then incoming
    else if check_status_priority incoming.status == check_status_priority existing.status
    then merge_check existing incoming
    else existing

-- `_upsert_preflight_check`
unfoldable pub upsert_preflight_check : List Check → Check → List Check
upsert_preflight_check [] incoming = incoming ∷ []
upsert_preflight_check (existing ∷ checks) incoming =
    if str_eq (merge_key existing) (merge_key incoming)
    then resolve_check existing incoming ∷ checks
    else existing ∷ upsert_preflight_check checks incoming

-- The calls of `add_check` in `_build_preflight`, in order, on the empty list.
unfoldable pub add_checks : List Check → List Check → List Check
add_checks checks [] = checks
add_checks checks (c ∷ cs) = add_checks (upsert_preflight_check checks c) cs

abbrev pub is_fail : Status → Bool
is_fail Status.fail = true
is_fail _ = false

-- `all(item["status"] != "fail" for item in checks)`
abbrev pub ready : List Check → Bool
ready checks = all (λ c. not (is_fail c.status)) checks

pub record Report : Type 0 where
  pub run_id : Option ℕ
  pub is_ready : Bool
  pub checks : List Check

abbrev pub is_selected : (include_warnings : Bool) → Status → Bool
is_selected include_warnings Status.fail = true
is_selected include_warnings Status.warning = include_warnings
is_selected include_warnings Status.pass = false

abbrev pub summary_line : (include_remediation : Bool) → Check → String
summary_line include_remediation c =
    let line = str_append c.code (str_append ": " c.message) in
    if include_remediation && given c.remediation
    then str_append line (str_append " Remediation: " (get_or c.remediation ""))
    else line

-- `_preflight_summary`: the lines that are joined, or the one line where none is selected.
unfoldable pub selected_lines :
    (include_warnings include_remediation : Bool) → List Check → List String
selected_lines include_warnings include_remediation [] = []
selected_lines include_warnings include_remediation (c ∷ cs) =
    let rest = selected_lines include_warnings include_remediation cs in
    if is_selected include_warnings c.status
    then summary_line include_remediation c ∷ rest
    else rest

abbrev or_all_passed : List String → List String
or_all_passed [] = "all checks passed" ∷ []
or_all_passed (line ∷ lines) = line ∷ lines

unfoldable pub preflight_summary :
    (include_warnings include_remediation : Bool) → List Check → List String
unfolding selected_lines
preflight_summary include_warnings include_remediation checks =
    or_all_passed (selected_lines include_warnings include_remediation checks)
