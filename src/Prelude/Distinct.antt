-- ===== src/Prelude/Distinct.antt =====
-- Tables under a unique constraint: no later row agrees with an earlier one.
use mathlib.Core.Path.{◌≡◌, refl}
use mathlib.Core.Logic.{inl, inr}
use mathlib.Core.Bool.{Bool, true, false, ◌||◌}
use mathlib.Core.List.{List, [], ◌∷◌, ◌++◌}
use native.Mathlib.Omega.{arith}
use spark_pilot.Prelude.Tests.{Bool-cases}
use spark_pilot.Prelude.Lists.{any, filter}
use spark_pilot.Prelude.Table.{update_where}

module _ {A : Type 0} where
  pub any-append : (p : A → Bool) (xs ys : List A) → any p (xs ++ ys) ≡ (any p xs || any p ys)
  any-append p [] ys = refl
  any-append p (x ∷ xs) ys = ground (arith, any-append p xs ys)

  pub any-append_false :
      (p : A → Bool) (xs : List A) (y : A)
      → any p xs ≡ false
      → p y ≡ false
      → any p (xs ++ y ∷ []) ≡ false
  any-append_false p [] y h k = ground arith
  any-append_false p (x ∷ xs) y h k = ground (arith, any-append_false p xs y)

  pub any-filter : (p q : A → Bool) (xs : List A) → any p xs ≡ false → any p (filter q xs) ≡ false
  any-filter p q [] h = refl
  any-filter p q (x ∷ xs) h = ground (arith, any-filter p q xs)

  -- A test that holds of no row holds of none that another test implies.
  pub any-imp :
      (p q : A → Bool) (xs : List A)
      → ((x : A) → q x ≡ true → p x ≡ true)
      → any p xs ≡ false
      → any q xs ≡ false
  any-imp p q [] imp h = refl
  any-imp p q (x ∷ xs) imp h = ground (arith, imp x, any-imp p q xs imp)

  pub any-update_where :
      (p test : A → Bool) (f : A → A) (xs : List A)
      → ((x : A) → p (f x) ≡ true → p x ≡ true)
      → any p xs ≡ false
      → any p (update_where test f xs) ≡ false
  unfolding update_where
  any-update_where p test f [] back h = refl
  any-update_where p test f (x ∷ xs) back h =
      ground (arith, back x, any-update_where p test f xs back)

  pub any-update_where-true :
      (p test : A → Bool) (f : A → A) (xs : List A)
      → ((x : A) → p x ≡ true → p (f x) ≡ true)
      → any p xs ≡ true
      → any p (update_where test f xs) ≡ true
  unfolding update_where
  any-update_where-true p test f [] forth h = h
  any-update_where-true p test f (x ∷ xs) forth h =
      ground (arith, forth x, any-update_where-true p test f xs forth)

  module _ (same : A → A → Bool) where
    abbrev pub Distinct : List A → Type 0
    Distinct [] = Unit
    Distinct (x ∷ xs) = (any (same x) xs ≡ false) × Distinct xs

    pub append-Distinct :
        (xs : List A) (y : A)
        → Distinct xs
        → any (λ x. same x y) xs ≡ false
        → Distinct (xs ++ y ∷ [])
    append-Distinct [] y h fresh = (refl, tt)
    append-Distinct (x ∷ xs) y h fresh =
        (any-append_false (same x) xs y h.0 (ground arith), append-Distinct xs y h.1 (ground arith))

    pub filter-Distinct : (q : A → Bool) (xs : List A) → Distinct xs → Distinct (filter q xs)
    filter-Distinct q [] h = tt
    filter-Distinct q (x ∷ xs) h = elim (Bool-cases (q x)) [
      | inl e ↦ rw e (any-filter (same x) q xs h.0, filter-Distinct q xs h.1)
      | inr e ↦ rw e (filter-Distinct q xs h.1)
    ]
