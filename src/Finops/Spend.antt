-- ===== src/Finops/Spend.antt =====
-- Showback and budgets agree on what a team has spent.
use spark_pilot.Prelude.{
  ℕ, zero, suc, ◌+◌, ◌*◌, ◌/◌, ◌≤◌, ◌≡◌, ◌↔◌, refl, sym, ap, ◌∙◌, inl, inr, String, Bool, true,
  false, not, ◌&&◌, leb, none, some, List, [], ◌∷◌, map, filter, take, length, Bool-cases,
  if◌then◌else◌, arith,
}
use spark_pilot.Models.{Uuid, CostAllocation, TeamBudget}
use spark_pilot.Preflight.Checks.{Check, Status, is_fail, ready, add_checks}
use spark_pilot.Preflight.Ready.{ready_exact}
use spark_pilot.Finops.Budgets.{
  ShowbackItem, showback_item, find_budget, sum_of, estimated, effective, is_selected,
  team_spend_for_period, get_cost_showback, budget_result, evaluate_team_budget, team_budget_check,
}

-- The sum of a column of the items.
abbrev pub sum_items : (ShowbackItem → ℕ) → List ShowbackItem → ℕ
sum_items amount [] = 0
sum_items amount (i ∷ items) = amount i + sum_items amount items

sum-map :
    (f : ShowbackItem → ℕ) (g : CostAllocation → ℕ) (rows : List CostAllocation)
    → ((a : CostAllocation) → f (showback_item a) ≡ g a)
    → sum_items f (map showback_item rows) ≡ sum_of g rows
sum-map f g [] same = refl
sum-map f g (a ∷ rows) same = omega (arith, same a, sum-map f g rows same)

take-all : (n : ℕ) (rows : List CostAllocation) → length rows ≤ n → take n rows ≡ rows
take-all zero [] h = refl
take-all zero (a ∷ rows) h = absurd (omega arith)
take-all (suc n) [] h = refl
take-all (suc n) (a ∷ rows) h =
    ap (λ (xs : List CostAllocation). a ∷ xs) (take-all n rows (omega arith))

-- What an order of a selection is trusted for: it keeps every sum and the number of rows.
pub record Reorders (ordered : List CostAllocation → List CostAllocation) : Type 0 where
  pub sums :
      (f : CostAllocation → ℕ) (rows : List CostAllocation)
      → sum_of f (ordered rows) ≡ sum_of f rows
  pub lengths : (rows : List CostAllocation) → length (ordered rows) ≡ length rows

-- A showback whose limit covers the team's rows of the period adds up: its estimated and effective
-- totals are the sums over its items, and the effective total is the spend that budgets are judged by.
pub showback_adds_up :
    (ordered : List CostAllocation → List CostAllocation) (team : Uuid) (period : String)
    (limit : ℕ) (rows : List CostAllocation)
    → Reorders ordered
    → length (filter (is_selected team period) rows) ≤ limit
    → let showback = get_cost_showback ordered team period limit 0 rows in
      (showback.total_estimated_cost_usd_micros
        ≡ sum_items (λ i. i.estimated_cost_usd_micros) showback.items)
      × (showback.total_effective_cost_usd_micros
          ≡ sum_items (λ i. i.effective_cost_usd_micros) showback.items)
      × (showback.total_effective_cost_usd_micros ≡ (team_spend_for_period team period rows).2)
unfolding get_cost_showback team_spend_for_period
showback_adds_up ordered team period limit rows r fits =
    let selected = filter (is_selected team period) rows in
    let shown = take-all limit (ordered selected) (omega (arith, r.lengths selected)) in
    rw shown (
      sym (
          sum-map (λ i. i.estimated_cost_usd_micros) estimated (ordered selected) (λ a. refl)
          ∙ r.sums estimated selected),
      sym (
          sum-map (λ i. i.effective_cost_usd_micros) effective (ordered selected) (λ a. refl)
          ∙ r.sums effective selected),
      refl,
    )

-- One micro-dollar more than what is spent is still within the given percentage of the budget.
abbrev pub HasRoom : TeamBudget → (spend : ℕ) → Type 0
HasRoom b spend = (spend + 1) * 100 ≤ b.monthly_budget_usd_micros * b.block_threshold_pct

joined : (t r : Bool) {P : Type 0} → (t ≡ false) ↔ P → ((not t && r) ≡ true) ↔ (P × (r ≡ true))
joined true r p = (λ h. cc, λ (room, h). absurd (ground (arith, p.1 room)))
joined false r p = (λ h. (p.0 refl, h), λ (room, h). h)

module _ (show : ℕ → String) (team : Uuid) (period : String) where
  abbrev fails : TeamBudget → ℕ → Bool
  fails b spend = is_fail (evaluate_team_budget show team period (some b) spend).status

  fails-of_test :
      (b : TeamBudget) (spend : ℕ)
      → fails b spend ≡ leb (b.monthly_budget_usd_micros * b.block_threshold_pct / 100) spend
  fails-of_test b spend =
      elim (Bool-cases (leb (b.monthly_budget_usd_micros * b.block_threshold_pct / 100) spend)) [
        | inl e ↦ rw e refl
        | inr e ↦
            rw e (warned (leb (b.monthly_budget_usd_micros * b.warn_threshold_pct / 100) spend))
      ]
    where
      warned :
          (w : Bool)
          → is_fail
              (if w
                then budget_result show team period Status.warning
                    "Team budget warning threshold reached for the current billing period."
                    (some "Review spend and planned workloads before submitting large runs.")
                    (("effective_spend_usd_micros", show spend)
                      ∷ (
                        "warn_threshold_usd_micros",
                        show (b.monthly_budget_usd_micros * b.warn_threshold_pct / 100),
                      )
                      ∷ [])
                else budget_result show team period Status.pass
                    "Team budget check passed for the current billing period." none
                    (("effective_spend_usd_micros", show spend)
                      ∷ ("budget_usd_micros", show b.monthly_budget_usd_micros)
                      ∷ [])).status
            ≡ false
      warned true = refl
      warned false = refl

  test-room : (n spend : ℕ) → (leb (n / 100) spend ≡ false) ↔ ((spend + 1) * 100 ≤ n)
  test-room n spend = (λ h. ground arith, λ h. ground arith)

  -- Where the team has a budget, a preflight with the budget's check is ready exactly when what the team
  -- has spent in the period (reconciled costs, and estimates where there is none yet) is below the block
  -- threshold, in whole micro-dollars, and the other checks leave it ready.
  pub budget_blocks_exactly :
      (budgets : List TeamBudget) (rows : List CostAllocation) (emitted : List Check)
      (b : TeamBudget)
      → find_budget team budgets ≡ some b
      → (ready (add_checks [] (team_budget_check show team period budgets rows ∷ emitted)) ≡ true)
        ↔ (HasRoom b (team_spend_for_period team period rows).2
            × (ready (add_checks [] emitted) ≡ true))
  unfolding team_budget_check
  budget_blocks_exactly budgets rows emitted b found =
      let spend = (team_spend_for_period team period rows).2 in
      let check = evaluate_team_budget show team period (some b) spend in
      let n = b.monthly_budget_usd_micros * b.block_threshold_pct in
      rw found (
        rw (ready_exact (check ∷ emitted), ready_exact emitted, fails-of_test b spend)
          (joined (leb (n / 100) spend) (ready emitted) (test-room n spend)))
