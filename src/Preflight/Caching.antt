-- ===== src/Preflight/Caching.antt =====
-- The cache stays bounded and fresh, and what a hit returns.
use spark_pilot.Prelude.{
  ℕ, ◌-◌, ◌≤◌, ◌<◌, ◌≡◌, refl, subst, sym, some-injective, true, not, ◌==◌, Option, none, some,
  List, [], ◌∷◌, All, All-append, All-filter, All-drop, filter, length, length-append, length-drop,
  Bool-cases, inl, inr, arith,
}
use spark_pilot.Preflight.Checks.{Report}
use spark_pilot.Preflight.Cache.{
  Entry, is_fresh, cache_max_entries, trim_preflight_cache, cache_get, without, move_to_end, answer,
  store_report, build_preflight_cached,
}

abbrev pub Fresh : ℕ → Entry → Type 0
Fresh now e = is_fresh now e ≡ true

-- At most 1024 entries, none older than five minutes.
pub record IsTrimmed (now : ℕ) (cache : List Entry) : Type 0 where
  pub bounded : length cache ≤ cache_max_entries
  pub fresh : All (Fresh now) cache

filter-Fresh : (now : ℕ) (cache : List Entry) → All (Fresh now) (filter (is_fresh now) cache)
filter-Fresh now [] = tt
filter-Fresh now (e ∷ cache) = elim (Bool-cases (is_fresh now e)) [
  | inl h ↦ rw h (h, filter-Fresh now cache)
  | inr h ↦ rw h (filter-Fresh now cache)
]

trim-IsTrimmed : (now : ℕ) (cache : List Entry) → IsTrimmed now (trim_preflight_cache now cache)
unfolding trim_preflight_cache
trim-IsTrimmed now cache =
    let kept = filter (is_fresh now) cache in
    record {
      bounded = omega (arith, length-drop (length kept - cache_max_entries) kept);
      fresh = All-drop (Fresh now) (length kept - cache_max_entries) kept (filter-Fresh now cache);
    }

length-without-le : (key : ℕ) (cache : List Entry) → length (without key cache) ≤ length cache
length-without-le key [] = omega arith
length-without-le key (e ∷ cache) = ground (arith, length-without-le key cache)

length-without-lt :
    (key : ℕ) (cache : List Entry) (e : Entry)
    → cache_get key cache ≡ some e
    → length (without key cache) < length cache
unfolding cache_get
length-without-lt key [] e h = cc
length-without-lt key (x ∷ cache) e h =
    ground (arith, length-without-lt key cache e, length-without-le key cache)

get-key :
    (key : ℕ) (cache : List Entry) (e : Entry) → cache_get key cache ≡ some e → e.cache_key ≡ key
unfolding cache_get
get-key key [] e h = cc
get-key key (x ∷ cache) e h = ground (arith, get-key key cache e)

get-Fresh :
    (now key : ℕ) (cache : List Entry) (e : Entry)
    → All (Fresh now) cache
    → cache_get key cache ≡ some e
    → Fresh now e
unfolding cache_get
get-Fresh now key [] e all h = cc
get-Fresh now key (x ∷ cache) e all h = elim (Bool-cases (x.cache_key == key)) [
  | inl k ↦ subst (Fresh now) (some-injective x e (rw k at h)) all.0
  | inr k ↦ get-Fresh now key cache e all.1 (rw k at h)
]

hit-IsTrimmed :
    (now key : ℕ) (cache : List Entry) (e : Entry)
    → IsTrimmed now cache
    → cache_get key cache ≡ some e
    → IsTrimmed now (move_to_end e cache)
unfolding move_to_end
hit-IsTrimmed now key cache e t h =
    let k = get-key key cache e h in
    record {
      bounded = omega (
        arith,
        t.bounded,
        length-append (without e.cache_key cache) (e ∷ []),
        length-without-lt e.cache_key cache e
            (subst (λ (i : ℕ). cache_get i cache ≡ some e) (sym k) h),
      );
      fresh =
          All-append (Fresh now) (without e.cache_key cache) (e ∷ [])
            (All-filter (Fresh now) (λ x. not (x.cache_key == e.cache_key)) cache t.fresh)
            (get-Fresh now key cache e t.fresh h, tt);
    }

store-IsTrimmed :
    (build : Option ℕ → Report) (key now : ℕ) (run_id : Option ℕ) (cache : List Entry)
    → IsTrimmed now (store_report build key now run_id cache).1
unfolding store_report
store-IsTrimmed build key now run_id cache = trim-IsTrimmed now (
    move_to_end (record { cache_key = key; cached_at = now; report = build run_id })
      (trim_preflight_cache now cache))

-- Whatever the cache held, after a call it holds at most 1024 reports and none older than five
-- minutes, on a hit as on a miss.
pub cached-IsTrimmed :
    (build : Option ℕ → Report) (key now : ℕ) (run_id : Option ℕ) (cache : List Entry)
    → IsTrimmed now (build_preflight_cached build key now run_id cache).1
unfolding build_preflight_cached
cached-IsTrimmed build key now run_id cache = on_answer (cache_get key trimmed) refl
  where
    trimmed : List Entry
    trimmed = trim_preflight_cache now cache

    on_answer :
        (o : Option Entry)
        → cache_get key trimmed ≡ o
        → IsTrimmed now (answer build key now run_id trimmed o).1
    on_answer none h = store-IsTrimmed build key now run_id trimmed
    on_answer (some e) h =
        rw (get-Fresh now key trimmed e (trim-IsTrimmed now cache).fresh h)
          (hit-IsTrimmed now key trimmed e (trim-IsTrimmed now cache) h)
