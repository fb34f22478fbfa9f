-- ===== src/Finops/Final.antt =====
-- A cost that is reconciled is final, and only costs are written.
use spark_pilot.Prelude.{
  ℕ, zero, suc, ◌⊎◌, some-injective, ◌≡◌, refl, sym, subst, ap, inl, inr, String, Bool, true, false,
  ◌==◌, ==_iff, Option, none, some, List, [], ◌∷◌, Dict, lookup, map, any, find, filter, take,
  is_empty, is_blank, Bool-cases, if◌then◌else◌, arith,
}
use spark_pilot.Prelude.Distinct.{Distinct}
use spark_pilot.Models.{Uuid, Time, CostAllocation}
use spark_pilot.Finops.Usage.{allocation_of}
use spark_pilot.Finops.Query.{
  Checked, bind, valid-injective, valid, Query, build_cur_reconciliation_query,
}
use spark_pilot.Finops.Athena.{wait_for_athena_query, parse_athena_cost_rows}
use spark_pilot.Finops.Reconciliation.{
  CostState, Athena, CurSettings, is_pending, has_run, is_configured, load_pending_cost_allocations,
  apply_cost, apply_cur_cost_updates, count_changed, finished_rows, store_costs, run_query,
  reconcile_pending, process_cur_reconciliation_once,
}

-- The unique constraint on the run of an allocation.
abbrev pub same_run : CostAllocation → CostAllocation → Bool
same_run a b = b.run_id == a.run_id

-- What the database's order of a selection is trusted for: it shows only rows of the selection.
abbrev pub ShowsSelected : (List CostAllocation → List CostAllocation) → Type 0
ShowsSelected ordered =
    (p : CostAllocation → Bool) (rows : List CostAllocation)
    → any p rows ≡ false
    → any p (ordered rows) ≡ false

any-take :
    (p : CostAllocation → Bool) (n : ℕ) (rows : List CostAllocation)
    → any p rows ≡ false
    → any p (take n rows) ≡ false
any-take p zero rows h = refl
any-take p (suc n) [] h = refl
any-take p (suc n) (a ∷ rows) h = ground (arith, any-take p n rows)

any-filter_none :
    (p q : CostAllocation → Bool) (rows : List CostAllocation)
    → any p rows ≡ false
    → any p (filter q rows) ≡ false
any-filter_none p q [] h = refl
any-filter_none p q (a ∷ rows) h = ground (arith, any-filter_none p q rows)

-- The one allocation of a run is not selected where it is reconciled.
not_selected :
    (id : Uuid) (rows : List CostAllocation) (a : CostAllocation)
    → Distinct same_run rows
    → find (allocation_of id) rows ≡ some a
    → is_pending a ≡ false
    → any (has_run id) (filter is_pending rows) ≡ false
not_selected id [] a h found done = refl
not_selected id (b ∷ rows) a h found done = elim (Bool-cases (b.run_id == id)) [
  | inl e ↦
      rw (closed e)
        (any-filter_none (has_run id) is_pending rows (others ((==_iff b.run_id id).0 e)))
  | inr e ↦
      let rest = not_selected id rows a h.1 (rw e at found) done in
      elim (Bool-cases (is_pending b)) [ inl p ↦ rw (p, e) rest | inr p ↦ rw p rest ]
]
  where
    closed : (b.run_id == id) ≡ true → is_pending b ≡ false
    closed e =
        subst (λ (x : CostAllocation). is_pending x ≡ false)
          (sym (some-injective b a (rw e at found))) done

    others : b.run_id ≡ id → any (has_run id) rows ≡ false
    others e = subst (λ (v : ℕ). any (λ (x : CostAllocation). x.run_id == v) rows ≡ false) e h.0

untouched :
    (text_of : Uuid → String) (now : Time) (pending : List CostAllocation) (costs : Dict ℕ)
    (id : Uuid) (rows : List CostAllocation) (a : CostAllocation)
    → any (has_run id) pending ≡ false
    → find (allocation_of id) rows ≡ some a
    → find (allocation_of id) (apply_cur_cost_updates text_of now pending costs rows) ≡ some a
unfolding apply_cur_cost_updates
untouched text_of now pending costs id [] a free found = found
untouched text_of now pending costs id (b ∷ rows) a free found =
    elim (Bool-cases (b.run_id == id)) [
      | inl e ↦ rw (own ((==_iff b.run_id id).0 e), e) (rw e at found)
      | inr e ↦ rw (keeps e) (untouched text_of now pending costs id rows a free (rw e at found))
    ]
  where
    own : b.run_id ≡ id → any (has_run b.run_id) pending ≡ false
    own e = subst (λ (v : ℕ). any (has_run v) pending ≡ false) (sym e) free

    kept_run : (cost : Option ℕ) → (apply_cost text_of now cost b).run_id ≡ b.run_id
    kept_run none = refl
    kept_run (some cost) = refl

    keeps :
        (b.run_id == id) ≡ false
        → ((if any (has_run b.run_id) pending
              then apply_cost text_of now (lookup (text_of b.run_id) costs) b
              else b).run_id
            == id)
          ≡ false
    keeps e = elim (Bool-cases (any (has_run b.run_id) pending)) [
      | inl p ↦ rw (p, kept_run (lookup (text_of b.run_id) costs)) e
      | inr p ↦ rw p e
    ]

module _ (lower : String → String) (micros : String → Option ℕ) (is_uuid : String → Bool)
    (text_of : Uuid → String) (ordered : List CostAllocation → List CostAllocation) (limit : ℕ)
    (athena : Athena) (now : Time) (actor : String) (settings : CurSettings) where
  -- The allocations are as before, or costs were applied to the selection.
  abbrev AsApplied : (pending before after : List CostAllocation) → Type 0
  AsApplied pending before after =
      (after ≡ before)
      ⊎ ((costs : Dict ℕ) × (after ≡ apply_cur_cost_updates text_of now pending costs before))

  stored :
      (pending : List CostAllocation) (query : Query) (id : String) (costs : Dict ℕ)
      (s s' : CostState) (n : ℕ)
      → store_costs lower micros is_uuid text_of ordered limit athena now actor pending query id
          costs s
        ≡ (n, s')
      → AsApplied pending s.allocations s'.allocations
  stored pending query id costs s s' n h =
      elim (Bool-cases (count_changed text_of pending costs == 0)) [
        | inl e ↦ inl (ap (λ (p : ℕ × CostState). p.1.allocations) (sym (rw e at h)))
        | inr e ↦ inr (costs, ap (λ (p : ℕ × CostState). p.1.allocations) (sym (rw e at h)))
      ]

  queried :
      (pending : List CostAllocation) (query : Query) (s s' : CostState) (n : ℕ)
      → run_query lower micros is_uuid text_of ordered limit athena now actor settings pending query
          s
        ≡ valid (n, s')
      → AsApplied pending s.allocations s'.allocations
  queried pending query s s' n h =
      let (id, started, h1) = bind (athena.start_query_execution query) _ h in
      let (rows, finished, h2) =
        bind
          (finished_rows athena (
            wait_for_athena_query settings.cur_query_timeout_seconds athena.clock
              athena.query_states))
          _ h1 in
      stored pending query id (parse_athena_cost_rows lower micros rows) s s' n (valid-injective h2)

  unchanged :
      (pending : List CostAllocation) (s s' : CostState) (n : ℕ)
      → ◌≡◌ {A = Checked (ℕ × CostState)} (valid (0, s)) (valid (n, s'))
      → AsApplied pending s.allocations s'.allocations
  unchanged pending s s' n h =
      inl (ap (λ (p : ℕ × CostState). p.1.allocations) (sym (valid-injective h)))

  reconciled :
      (pending : List CostAllocation) (s s' : CostState) (n : ℕ)
      → reconcile_pending lower micros is_uuid text_of ordered limit athena now actor settings
          pending s
        ≡ valid (n, s')
      → AsApplied pending s.allocations s'.allocations
  reconciled pending s s' n h = elim (Bool-cases (is_empty pending)) [
    | inl e ↦ unchanged pending s s' n (rw e at h)
    | inr e ↦
        let (query, built, h1) =
          bind
            (build_cur_reconciliation_query is_uuid settings.query
              (map (λ (a : CostAllocation). text_of a.run_id) pending))
            _ (rw e at h) in
        elim (Bool-cases (is_blank query.sql)) [
          | inl b ↦ unchanged pending s s' n (rw b at h1)
          | inr b ↦ queried pending query s s' n (rw b at h1)
        ]
  ]

  processed :
      (s s' : CostState) (n : ℕ)
      → process_cur_reconciliation_once lower micros is_uuid text_of ordered limit athena now actor
          settings s
        ≡ valid (n, s')
      → AsApplied
          (load_pending_cost_allocations ordered limit s.allocations)
          s.allocations
          s'.allocations
  unfolding process_cur_reconciliation_once
  processed s s' n h = elim (Bool-cases (is_configured settings.query)) [
    | inl e ↦ reconciled _ s s' n (rw e at h)
    | inr e ↦ unchanged _ s s' n (rw e at h)
  ]

  -- Whatever Athena answers, a reconciliation that returns leaves an allocation as it is whose cost is
  -- reconciled already, if each run has one allocation and the database's order of a selection shows
  -- only its rows.
  pub reconciled_is_final :
      (s s' : CostState) (n : ℕ) (id : Uuid) (a : CostAllocation)
      → ShowsSelected ordered
      → Distinct same_run s.allocations
      → find (allocation_of id) s.allocations ≡ some a
      → is_pending a ≡ false
      → process_cur_reconciliation_once lower micros is_uuid text_of ordered limit athena now actor
          settings s
        ≡ valid (n, s')
      → find (allocation_of id) s'.allocations ≡ some a
  unfolding load_pending_cost_allocations
  reconciled_is_final s s' n id a shows unique found done h = elim (processed s s' n h) [
    | inl same ↦ rw same found
    | inr (costs, same) ↦ rw same (
        untouched text_of now (load_pending_cost_allocations ordered limit s.allocations) costs id
          s.allocations a
          (any-take (has_run id) limit _ (
            shows (has_run id) (filter is_pending s.allocations)
              (not_selected id s.allocations a unique found done)))
          found)
  ]
