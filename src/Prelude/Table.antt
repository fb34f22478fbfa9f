-- ===== src/Prelude/Table.antt =====
-- A table of the database: its rows in the order of insertion, with a numeric primary key.
use Prim.Native.Nat.{ℕ}
use mathlib.Core.Path.{◌≡◌, refl}
use mathlib.Core.Logic.{inl, inr}
use mathlib.Core.Bool.{Bool}
use mathlib.Core.Option.{Option, none, some}
use mathlib.Core.List.{List, [], ◌∷◌}
use native.Mathlib.Omega.{arith}
use spark_pilot.Prelude.Tests.{◌==◌, if◌then◌else◌, Bool-cases}
use spark_pilot.Prelude.Lists.{length, filter, All}

abbrev pub map_option : {A : Type 0} → (A → A) → Option A → Option A
map_option f none = none
map_option f (some a) = some (f a)

module _ {A : Type 0} (key : A → ℕ) where
  -- `db.get(Model, id)`
  unfoldable pub get_row : ℕ → List A → Option A
  get_row id [] = none
  get_row id (x ∷ xs) = if key x == id then some x else get_row id xs

  -- `UPDATE … SET … WHERE id = :id`, and the flush of a changed object
  unfoldable pub modify_row : ℕ → (A → A) → List A → List A
  modify_row id f [] = []
  modify_row id f (x ∷ xs) = (if key x == id then f x else x) ∷ modify_row id f xs

  pub length-modify_row :
      (id : ℕ) (f : A → A) (xs : List A) → length (modify_row id f xs) ≡ length xs
  unfolding modify_row
  length-modify_row id f [] = refl
  length-modify_row id f (x ∷ xs) = omega (arith, length-modify_row id f xs)

  pub get_row-key : (id : ℕ) (xs : List A) (x : A) → get_row id xs ≡ some x → key x ≡ id
  unfolding get_row
  get_row-key id [] x h = ground arith
  get_row-key id (y ∷ xs) x h = ground (arith, get_row-key id xs x)

  pub get-modify_row_self :
      (id : ℕ) (f : A → A) (xs : List A) (x : A)
      → ((y : A) → key (f y) ≡ key y)
      → get_row id xs ≡ some x
      → get_row id (modify_row id f xs) ≡ some (f x)
  unfolding get_row modify_row
  get-modify_row_self id f [] x keep h = ground arith
  get-modify_row_self id f (y ∷ xs) x keep h =
      ground (arith, keep y, keep x, get-modify_row_self id f xs x keep)

  pub get-modify_row_ne :
      (id other : ℕ) (f : A → A) (xs : List A)
      → ((y : A) → key (f y) ≡ key y)
      → (id ≡ other → ⊥)
      → get_row other (modify_row id f xs) ≡ get_row other xs
  unfolding get_row modify_row
  get-modify_row_ne id other f [] keep h = refl
  get-modify_row_ne id other f (y ∷ xs) keep h =
      ground (arith, keep y, get-modify_row_ne id other f xs keep)

  module _ {ℓ} (P : A → Type ℓ) where
    pub All-modify_row :
        (id : ℕ) (f : A → A) (xs : List A)
        → ((y : A) → P y → P (f y))
        → All P xs
        → All P (modify_row id f xs)
    unfolding modify_row
    All-modify_row id f [] keep h = tt
    All-modify_row id f (x ∷ xs) keep h = elim (Bool-cases (key x == id)) [
      | inl e ↦ rw e (keep x h.0, All-modify_row id f xs keep h.1)
      | inr e ↦ rw e (h.0, All-modify_row id f xs keep h.1)
    ]

-- `UPDATE … SET … WHERE test`, with the number of rows that it changes.
module _ {A : Type 0} (test : A → Bool) (f : A → A) where
  unfoldable pub update_where : List A → List A
  update_where [] = []
  update_where (x ∷ xs) = (if test x then f x else x) ∷ update_where xs

unfoldable pub rowcount : {A : Type 0} (test : A → Bool) → List A → ℕ
rowcount test xs = length (filter test xs)
