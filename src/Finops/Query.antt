-- ===== src/Finops/Query.antt =====
-- The text of the Athena query in src/sparkpilot/services/finops.py. What `uuid.UUID` accepts is a
-- parameter. The details of the errors are their first clause.
use Prim.Native.Char.{code}
use Prim.Native.String.{[], ◌∷◌}
use spark_pilot.Prelude.{
  ◌≡◌, refl, ℕ, String, Bool, true, false, not, ◌&&◌, ◌||◌, ◌==◌, leb, is_blank, is_empty,
  str_append, if◌then◌else◌,
}
use spark_pilot.Prelude.Strip.{strip}
use spark_pilot.Runs.Configuration.{sorted_set}
use mathlib.Core.List as L
use mathlib.Core.List.{List}

-- `ValueError`, or what the call returns.
pub data Checked (A : Type 0) : Type 0 where
  invalid : String → Checked A
  valid : A → Checked A

infixl 5 ◌>>=◌
abbrev pub ◌>>=◌ : {A B : Type 0} → Checked A → (A → Checked B) → Checked B
invalid e >>= rest = invalid e
valid a >>= rest = rest a

-- A call that returns, apart.
pub bind :
    {A B : Type 0} (m : Checked A) (f : A → Checked B) {b : B}
    → (m >>= f) ≡ valid b
    → (a : A) × (m ≡ valid a) × (f a ≡ valid b)
bind (invalid e) f h = cc
bind (valid a) f h = (a, refl, h)

pub valid-injective : {A : Type 0} {a b : A} → valid a ≡ valid b → a ≡ b
valid-injective h = cc

abbrev pub is_letter : ℕ → Bool
is_letter c = leb b'A' c && leb c b'Z' || leb b'a' c && leb c b'z' || c == b'_'

abbrev pub is_word : ℕ → Bool
is_word c = is_letter c || leb b'0' c && leb c b'9'

-- `[A-Za-z0-9_]*$`, where `$` also stands before a last line break.
unfoldable pub is_word_tail : String → Bool
is_word_tail [] = true
is_word_tail (c ∷ s) =
    let rest = is_word_tail s in if is_word (code c) then rest else code c == 10 && is_blank s

-- `ATHENA_IDENTIFIER_RE.match`
unfoldable pub matches_identifier : String → Bool
matches_identifier [] = false
matches_identifier (c ∷ s) = is_letter (code c) && is_word_tail s

unfoldable pub validate_athena_identifier : String → Checked String
validate_athena_identifier value =
    let candidate = strip value in
    if is_blank candidate || not (matches_identifier candidate)
    then invalid "Invalid Athena identifier"
    else valid candidate

-- `value.replace("'", "''")`
unfoldable pub double_quotes : String → String
double_quotes [] = ""
double_quotes (c ∷ s) =
    let rest = double_quotes s in if code c == b'\'' then c ∷ c ∷ rest else c ∷ rest

unfoldable pub quote_athena_literal : String → String
quote_athena_literal value = "'" ∷ str_append (double_quotes value) ("'" ∷ "")

-- `", ".join(…)`
unfoldable pub join_comma : List String → String
join_comma L.[] = ""
join_comma (L.◌∷◌ x L.[]) = x
join_comma (L.◌∷◌ x (L.◌∷◌ y ys)) = str_append x ("," ∷ " " ∷ join_comma (L.◌∷◌ y ys))

abbrev pub append_all : List String → String
append_all L.[] = ""
append_all (L.◌∷◌ x xs) = str_append x (append_all xs)

pub record QuerySettings : Type 0 where
  pub cur_run_id_column : String
  pub cur_cost_column : String
  pub cur_athena_database : String
  pub cur_athena_table : String
  pub cur_athena_output_location : String

pub record Query : Type 0 where
  pub sql : String
  pub database : String
  pub table : String

abbrev pub all_valid : (String → Bool) → List String → Bool
all_valid is_uuid L.[] = true
all_valid is_uuid (L.◌∷◌ x xs) = is_uuid x && all_valid is_uuid xs

-- `_validate_uuid_run_ids`
unfoldable pub validate_uuid_run_ids :
    (is_uuid : String → Bool) → List String → Checked (List String)
validate_uuid_run_ids is_uuid run_ids =
    if all_valid is_uuid run_ids
    then valid run_ids
    else invalid "Invalid run_id values for CUR reconciliation"

abbrev pub sql_text : (run_id_column cost_column database table : String) → List String → String
sql_text run_id_column cost_column database table ids = append_all (
    L.◌∷◌ "SELECT " (
      L.◌∷◌ run_id_column (
        L.◌∷◌ " AS run_id, SUM(CAST(" (
          L.◌∷◌ cost_column (
            L.◌∷◌ " AS DOUBLE)) AS cost_usd FROM " (
              L.◌∷◌ database (
                L.◌∷◌ "." (
                  L.◌∷◌ table (
                    L.◌∷◌ " WHERE " (
                      L.◌∷◌ run_id_column (
                        L.◌∷◌ " IN (" (
                          L.◌∷◌ (join_comma (L.map quote_athena_literal ids))
                            (L.◌∷◌ ") GROUP BY 1" L.[])))))))))))))

-- `sorted({item.run_id for item in pending})` are the arguments' run ids.
unfoldable pub build_cur_reconciliation_query :
    (is_uuid : String → Bool) → QuerySettings → List String → Checked Query
build_cur_reconciliation_query is_uuid settings pending = do
  run_id_column ← validate_athena_identifier settings.cur_run_id_column
  cost_column ← validate_athena_identifier settings.cur_cost_column
  database ← validate_athena_identifier settings.cur_athena_database
  table ← validate_athena_identifier settings.cur_athena_table
  run_ids ← validate_uuid_run_ids is_uuid (sorted_set pending)
  valid (record {
    sql =
        if is_empty run_ids then "" else sql_text run_id_column cost_column database table run_ids;
    database = database;
    table = table;
  })
