-- ===== src/Finops/Names.antt =====
-- The names that go into the query.
use Prim.Native.Char.{code}
use Prim.Native.String.{[], ◌∷◌}
use spark_pilot.Prelude.{
  ℕ, ◌≡◌, refl, subst, inl, inr, String, Bool, true, false, not, ◌&&◌, ◌||◌, ◌==◌, ==_iff, is_blank,
  is_empty, Bool-cases, if◌then◌else◌, arith,
}
use mathlib.Core.List.{List}
use spark_pilot.Prelude.Strip.{strip, is_space, ends_space, strip-clean, tail-clean, is_blank-cons}
use spark_pilot.Runs.Configuration.{sorted_set}
use spark_pilot.Finops.Query.{
  bind, valid, invalid, is_letter, is_word, is_word_tail, matches_identifier,
  validate_athena_identifier, validate_uuid_run_ids, QuerySettings, Query, sql_text,
  build_cur_reconciliation_query, ◌>>=◌,
}

wrong : false ≡ true → ⊥
wrong k = cc

-- Letters, digits and underscores only, and at least one.
abbrev pub all_words : String → Bool
all_words [] = true
all_words (c ∷ s) = is_word (code c) && all_words s

abbrev pub IsName : String → Type 0
IsName s = (is_blank s ≡ false) × (all_words s ≡ true)

breaks_line : (n : ℕ) → (n == 10) ≡ true → is_space n ≡ true
breaks_line n h = rw ((==_iff n 10).0 h) (unfold is_space in refl)

-- Without a space at the end, `$` stands at the end only.
words_of_tail : (s : String) → is_word_tail s ≡ true → ends_space s ≡ false → all_words s ≡ true
unfolding is_word_tail
words_of_tail [] h clean = refl
words_of_tail (c ∷ []) h clean = elim (Bool-cases (is_word (code c))) [
  | inl e ↦ rw e refl
  | inr e ↦ absurd (no_break (rw e at h))
]
  where
    no_break : (code c == 10 && is_blank "") ≡ true → ⊥
    no_break k = ground (arith, breaks_line (code c))
words_of_tail (c ∷ d ∷ s) h clean = elim (Bool-cases (is_word (code c))) [
  | inl e ↦ rw e (words_of_tail (d ∷ s) (rw e at h) clean)
  | inr e ↦ absurd (no_break (rw e at h))
]
  where
    no_break : (code c == 10 && is_blank (d ∷ s)) ≡ true → ⊥
    no_break k = ground (arith, is_blank-cons d s)

word_of_letter : (c : ℕ) → is_letter c ≡ true → is_word c ≡ true
word_of_letter c h = ground arith

name_of_match :
    (s : String) → matches_identifier s ≡ true → ends_space s ≡ false → all_words s ≡ true
unfolding matches_identifier
name_of_match [] h clean = refl
name_of_match (c ∷ s) h clean =
    rw (word_of_letter (code c) (first h)) (words_of_tail s (second h) (tail-clean c s clean))
  where
    first : (is_letter (code c) && is_word_tail s) ≡ true → is_letter (code c) ≡ true
    first k = elim (Bool-cases (is_letter (code c))) [
      | inl e ↦ e
      | inr e ↦ absurd (wrong (rw e at k))
    ]

    second : (is_letter (code c) && is_word_tail s) ≡ true → is_word_tail s ≡ true
    second k = rw (first k) at k

pub validated-IsName :
    (value name : String) → validate_athena_identifier value ≡ valid name → IsName name
unfolding validate_athena_identifier
validated-IsName value name h =
    elim (Bool-cases (is_blank (strip value) || not (matches_identifier (strip value)))) [
      | inl e ↦ absurd (refused (rw e at h))
      | inr e ↦
          let same = is_valid (strip value) (rw e at h) in
          subst IsName same (named (strip value) e (strip-clean value))
    ]
  where
    refused : invalid "Invalid Athena identifier" ≡ valid name → ⊥
    refused k = cc

    is_valid : (candidate : String) → valid candidate ≡ valid name → candidate ≡ name
    is_valid candidate k = cc

    named :
        (candidate : String)
        → (is_blank candidate || not (matches_identifier candidate)) ≡ false
        → ends_space candidate ≡ false
        → IsName candidate
    named candidate k clean = (ground arith, name_of_match candidate (ground arith) clean)

-- The last step, with the four names at hand.
assembled :
    (is_uuid : String → Bool) (a b c t : String) (ids : List String) (q : Query)
    → ◌>>=◌ {B = Query} (validate_uuid_run_ids is_uuid ids) (λ run_ids. valid (record {
      sql = if is_empty run_ids then "" else sql_text a b c t run_ids;
      database = c;
      table = t;
    }))
      ≡ valid q
    → (q.sql ≡ (if is_empty ids then "" else sql_text a b c t ids))
      × (c ≡ q.database)
      × (t ≡ q.table)
unfolding validate_uuid_run_ids
assembled is_uuid a b c t ids q h = (ground arith, ground arith, ground arith)

-- A query that is built is that of four names, of letters, digits and underscores, and of the sorted run
-- ids as literals; without a run id it is empty.
pub built_query_lem :
    (is_uuid : String → Bool) (settings : QuerySettings) (pending : List String) (q : Query)
    → build_cur_reconciliation_query is_uuid settings pending ≡ valid q
    → (run_id_column cost_column : String) × IsName run_id_column
      × IsName cost_column
      × IsName q.database
      × IsName q.table
      × (q.sql ≡ (
          if is_empty (sorted_set pending)
          then ""
          else sql_text run_id_column cost_column q.database q.table (sorted_set pending)))
unfolding build_cur_reconciliation_query
built_query_lem is_uuid settings pending q h =
    let (a, va, h1) = bind (validate_athena_identifier settings.cur_run_id_column) _ h in
    let (b, vb, h2) = bind (validate_athena_identifier settings.cur_cost_column) _ h1 in
    let (c, vc, h3) = bind (validate_athena_identifier settings.cur_athena_database) _ h2 in
    let (t, vt, h4) = bind (validate_athena_identifier settings.cur_athena_table) _ h3 in
    let (sql, database, table) = assembled is_uuid a b c t (sorted_set pending) q h4 in
    (
      a,
      b,
      validated-IsName settings.cur_run_id_column a va,
      validated-IsName settings.cur_cost_column b vb,
      subst IsName database (validated-IsName settings.cur_athena_database c vc),
      subst IsName table (validated-IsName settings.cur_athena_table t vt),
      subst
          (λ (x : String). q.sql ≡ (
            if is_empty (sorted_set pending)
            then ""
            else sql_text a b q.database x (sorted_set pending)))
          table
          (subst
            (λ (x : String). q.sql ≡ (
              if is_empty (sorted_set pending) then "" else sql_text a b x t (sorted_set pending)))
            database sql),
    )
