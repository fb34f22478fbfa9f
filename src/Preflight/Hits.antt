-- ===== src/Preflight/Hits.antt =====
-- What a hit of the preflight cache returns.
use spark_pilot.Prelude.{
  ℕ, zero, suc, ◌-◌, ◌≤◌, ◌<◌, ◌≡◌, refl, ap, ◌∙◌, Bool, true, ◌==◌, Option, none, some, List, [],
  ◌∷◌, ◌++◌, filter, length, length-append, drop, Bool-cases, inl, inr, arith, ==_refl,
}
use spark_pilot.Preflight.Checks.{Report}
use spark_pilot.Preflight.Cache.{
  Entry, is_fresh, cache_ttl, cache_max_entries, trim_preflight_cache, cache_get, without,
  move_to_end, as_for_run, store_report, build_preflight_cached,
}

-- A cache that ends in an entry, the only one of its key.
record EndsIn (e : Entry) (cache : List Entry) : Type 0 where
  front : List Entry
  shape : cache ≡ front ++ e ∷ []
  absent : cache_get e.cache_key front ≡ none

absent_without : (key : ℕ) (cache : List Entry) → cache_get key (without key cache) ≡ none
unfolding cache_get
absent_without key [] = refl
absent_without key (x ∷ cache) = elim (Bool-cases (x.cache_key == key)) [
  | inl h ↦ rw h (absent_without key cache)
  | inr h ↦ rw h (rw h (absent_without key cache))
]

absent_filter :
    (p : Entry → Bool) (key : ℕ) (cache : List Entry)
    → cache_get key cache ≡ none
    → cache_get key (filter p cache) ≡ none
unfolding cache_get
absent_filter p key [] h = refl
absent_filter p key (x ∷ cache) h = ground (arith, absent_filter p key cache)

absent_drop :
    (n key : ℕ) (cache : List Entry)
    → cache_get key cache ≡ none
    → cache_get key (drop n cache) ≡ none
unfolding cache_get
absent_drop zero key cache h = h
absent_drop (suc n) key [] h = refl
absent_drop (suc n) key (x ∷ cache) h = absent_drop n key cache (ground arith)

drop-append :
    (n : ℕ) (xs : List Entry) (e : Entry)
    → n ≤ length xs
    → drop n (xs ++ e ∷ []) ≡ drop n xs ++ e ∷ []
drop-append zero xs e h = refl
drop-append (suc n) [] e h = absurd (omega arith)
drop-append (suc n) (x ∷ xs) e h = drop-append n xs e (omega arith)

filter-append_fresh :
    (p : Entry → Bool) (xs : List Entry) (e : Entry)
    → p e ≡ true
    → filter p (xs ++ e ∷ []) ≡ filter p xs ++ e ∷ []
filter-append_fresh p [] e h = rw h
filter-append_fresh p (x ∷ xs) e h = elim (Bool-cases (p x)) [
  | inl k ↦ rw k (rw (filter-append_fresh p xs e h))
  | inr k ↦ rw k (filter-append_fresh p xs e h)
]

get-EndsIn :
    (e : Entry) (front : List Entry)
    → cache_get e.cache_key front ≡ none
    → cache_get e.cache_key (front ++ e ∷ []) ≡ some e
unfolding cache_get
get-EndsIn e [] h = rw (==_refl e.cache_key)
get-EndsIn e (x ∷ front) h = ground (arith, get-EndsIn e front)

-- Trimming keeps a fresh last entry where it is.
trim-EndsIn :
    (now : ℕ) (e : Entry) (cache : List Entry)
    → is_fresh now e ≡ true
    → EndsIn e cache
    → EndsIn e (trim_preflight_cache now cache)
unfolding trim_preflight_cache
trim-EndsIn now e cache fresh ends =
    let kept = filter (is_fresh now) ends.front in
    let n = length (filter (is_fresh now) cache) - cache_max_entries in
    let e1 =
      ap (filter (is_fresh now)) ends.shape
      ∙ filter-append_fresh (is_fresh now) ends.front e fresh in
    record {
      front = drop n kept;
      shape =
          ap (drop n) e1
          ∙ drop-append n kept e
              (omega (arith, ap (λ (l : List Entry). length l) e1, length-append kept (e ∷ [])));
      absent =
          absent_drop n e.cache_key kept
            (absent_filter (is_fresh now) e.cache_key ends.front ends.absent);
    }

-- A miss stores the report last.
store-EndsIn :
    (build : Option ℕ → Report) (key now : ℕ) (run_id : Option ℕ) (cache : List Entry)
    → EndsIn
        (record { cache_key = key; cached_at = now; report = build run_id })
        (store_report build key now run_id cache).1
unfolding store_report move_to_end
store-EndsIn build key now run_id cache = trim-EndsIn now _ _ (ground arith) (record {
  front = without key (trim_preflight_cache now cache);
  shape = refl;
  absent = absent_without key (trim_preflight_cache now cache);
})

hit_answer :
    (build : Option ℕ → Report) (later : ℕ) (run_id : Option ℕ) (e : Entry) (cache : List Entry)
    → is_fresh later e ≡ true
    → EndsIn e cache
    → (build_preflight_cached build e.cache_key later run_id cache).0 ≡ as_for_run run_id e.report
unfolding build_preflight_cached
hit_answer build later run_id e cache fresh ends =
    let trimmed = trim-EndsIn later e cache fresh ends in
    let found =
      ap (cache_get e.cache_key) trimmed.shape ∙ get-EndsIn e trimmed.front trimmed.absent in
    rw found (rw fresh)

-- Where a call of the cache finds no report of its key, and so builds and stores one, the very next call
-- of the cache, of the same key, for any run and within five minutes, returns the first run's report
-- under the second run's id: nothing of the second run is evaluated.
pub cached_report_is_first_runs :
    (build : Option ℕ → Report) (key now later : ℕ) (first second : Option ℕ) (cache : List Entry)
    → cache_get key (trim_preflight_cache now cache) ≡ none
    → later - now < cache_ttl
    → (build_preflight_cached build key later second
        (build_preflight_cached build key now first cache).1).0
      ≡ as_for_run second (build first)
unfolding build_preflight_cached
cached_report_is_first_runs build key now later first second cache miss soon = rw miss (
    hit_answer build later second
      (record { cache_key = key; cached_at = now; report = build first })
      (store_report build key now first (trim_preflight_cache now cache)).1 (ground arith)
      (store-EndsIn build key now first (trim_preflight_cache now cache)))
