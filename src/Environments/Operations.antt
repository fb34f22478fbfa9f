-- ===== src/Environments/Operations.antt =====
-- Operations of one environment exclude each other.
use spark_pilot.Prelude.{ℕ, ◌+◌, ◌≡◌, List, [], ◌∷◌, ◌++◌, filter, length, arith}
use spark_pilot.Models.{Uuid, ProvisioningOperation}
use spark_pilot.Environments.{works_on}

-- How many operations work on an environment.
abbrev pub working : Uuid → List ProvisioningOperation → ℕ
working id ops = length (filter (works_on id) ops)

pub working-append :
    (id : Uuid) (xs ys : List ProvisioningOperation)
    → working id (xs ++ ys) ≡ working id xs + working id ys
working-append id [] ys = omega arith
working-append id (x ∷ xs) ys = ground (arith, working-append id xs ys)
