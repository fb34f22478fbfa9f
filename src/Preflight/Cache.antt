-- ===== src/Preflight/Cache.antt =====
-- `_build_preflight_cached` of src/sparkpilot/services/preflight.py: an `OrderedDict`, oldest use
-- first, from a fingerprint to the time and the report. A fingerprint is the pair of what is hashed:
-- the environment and the Spark configuration, here a number that the hash of both stands for.
use spark_pilot.Prelude.{
  ℕ, ◌*◌, ◌-◌, Bool, not, ◌==◌, ltb, Option, none, some, List, [], ◌∷◌, ◌++◌, filter, length, drop,
  if◌then◌else◌,
}
use spark_pilot.Preflight.Checks.{Report}

-- `_PREFLIGHT_CACHE_TTL_SECONDS`, in microseconds, and `_PREFLIGHT_CACHE_MAX_ENTRIES`
abbrev pub cache_ttl : ℕ
cache_ttl = 300 * 1000000

abbrev pub cache_max_entries : ℕ
cache_max_entries = 1024

pub record Entry : Type 0 where
  pub cache_key : ℕ
  pub cached_at : ℕ
  pub report : Report

abbrev pub is_fresh : ℕ → Entry → Bool
is_fresh now e = ltb (now - e.cached_at) cache_ttl

-- `_trim_preflight_cache`: stale entries go, then the oldest ones above the bound.
unfoldable pub trim_preflight_cache : ℕ → List Entry → List Entry
trim_preflight_cache now cache =
    let kept = filter (is_fresh now) cache in drop (length kept - cache_max_entries) kept

unfoldable pub cache_get : ℕ → List Entry → Option Entry
cache_get key [] = none
cache_get key (e ∷ cache) = if e.cache_key == key then some e else cache_get key cache

abbrev pub without : ℕ → List Entry → List Entry
without key cache = filter (λ e. not (e.cache_key == key)) cache

-- `move_to_end`
unfoldable pub move_to_end : Entry → List Entry → List Entry
move_to_end e cache = without e.cache_key cache ++ e ∷ []

-- A hit returns the cached report under the new run's id.
abbrev pub as_for_run : Option ℕ → Report → Report
as_for_run run_id report = record report { run_id = run_id }

module _ (build : Option ℕ → Report) (key now : ℕ) (run_id : Option ℕ) where
  unfoldable pub store_report : List Entry → Report × List Entry
  store_report cache =
      let report = build run_id in
      let entry : Entry = record { cache_key = key; cached_at = now; report = report } in
      (report, trim_preflight_cache now (move_to_end entry (trim_preflight_cache now cache)))

  abbrev pub answer : List Entry → Option Entry → Report × List Entry
  answer cache none = store_report cache
  answer cache (some e) =
      if is_fresh now e
      then (as_for_run run_id e.report, move_to_end e cache)
      else store_report cache

  -- `build` is `_build_preflight` on the environment and configuration at hand.
  unfoldable pub build_preflight_cached : List Entry → Report × List Entry
  build_preflight_cached cache =
      let trimmed = trim_preflight_cache now cache in answer trimmed (cache_get key trimmed)
