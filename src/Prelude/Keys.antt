-- ===== src/Prelude/Keys.antt =====
-- Tables whose primary keys are unique, under insertion, update of a row and update of all rows.
use Prim.Native.Nat.{ℕ}
use mathlib.Core.Path.{◌≡◌, refl, sym, subst}
use mathlib.Core.Logic.{inl, inr}
use mathlib.Core.Option.{none, some}
use mathlib.Core.List.{List, [], ◌∷◌, ◌++◌, map}
use native.Mathlib.Omega.{arith}
use spark_pilot.Prelude.Tests.{◌==◌, if◌then◌else◌, Bool-cases}
use spark_pilot.Prelude.Table.{get_row, modify_row}

module _ {A : Type 0} (key : A → ℕ) where
  abbrev pub UniqueKeys : List A → Type 0
  UniqueKeys [] = Unit
  UniqueKeys (x ∷ xs) = (get_row key (key x) xs ≡ none) × UniqueKeys xs

  pub get_row-append :
      (id : ℕ) (xs ys : List A) (x : A)
      → get_row key id xs ≡ some x
      → get_row key id (xs ++ ys) ≡ some x
  unfolding get_row
  get_row-append id [] ys x h = ground arith
  get_row-append id (z ∷ xs) ys x h = ground (arith, get_row-append id xs ys x)

  absent-append :
      (id : ℕ) (xs ys : List A)
      → get_row key id xs ≡ none
      → get_row key id ys ≡ none
      → get_row key id (xs ++ ys) ≡ none
  unfolding get_row
  absent-append id [] ys h k = k
  absent-append id (z ∷ xs) ys h k = ground (arith, absent-append id xs ys)

  pub append-UniqueKeys :
      (xs : List A) (y : A)
      → UniqueKeys xs
      → get_row key (key y) xs ≡ none
      → UniqueKeys (xs ++ y ∷ [])
  unfolding get_row
  append-UniqueKeys [] y h fresh = (refl, tt)
  append-UniqueKeys (x ∷ xs) y h fresh = elim (Bool-cases (key x == key y)) [
    | inl e ↦ absurd (taken (rw e at fresh))
    | inr e ↦ (
      absent-append (key x) xs (y ∷ []) h.0 (ground arith),
      append-UniqueKeys xs y h.1 (rw e at fresh),
    )
  ]
    where
      taken : some x ≡ none → ⊥
      taken k = cc

  absent-modify_row :
      (id other : ℕ) (f : A → A) (xs : List A)
      → ((y : A) → key y ≡ id → key (f y) ≡ id)
      → get_row key other xs ≡ none
      → get_row key other (modify_row key id f xs) ≡ none
  unfolding get_row modify_row
  absent-modify_row id other f [] keep h = refl
  absent-modify_row id other f (x ∷ xs) keep h =
      ground (arith, keep x, absent-modify_row id other f xs keep)

  key_of_modified :
      (id : ℕ) (f : A → A) (x : A)
      → ((y : A) → key y ≡ id → key (f y) ≡ id)
      → key (if key x == id then f x else x) ≡ key x
  key_of_modified id f x keep = ground (arith, keep x)

  pub modify_row-UniqueKeys :
      (id : ℕ) (f : A → A) (xs : List A)
      → ((y : A) → key y ≡ id → key (f y) ≡ id)
      → UniqueKeys xs
      → UniqueKeys (modify_row key id f xs)
  unfolding modify_row
  modify_row-UniqueKeys id f [] keep h = tt
  modify_row-UniqueKeys id f (x ∷ xs) keep h = (
    subst (λ (i : ℕ). get_row key i (modify_row key id f xs) ≡ none)
        (sym (key_of_modified id f x keep)) (absent-modify_row id (key x) f xs keep h.0),
    modify_row-UniqueKeys id f xs keep h.1,
  )

  pub get_row-modify_other :
      (id other : ℕ) (f : A → A) (xs : List A)
      → ((y : A) → key y ≡ id → key (f y) ≡ id)
      → (id ≡ other → ⊥)
      → get_row key other (modify_row key id f xs) ≡ get_row key other xs
  unfolding get_row modify_row
  get_row-modify_other id other f [] keep h = refl
  get_row-modify_other id other f (x ∷ xs) keep h =
      ground (arith, keep x, get_row-modify_other id other f xs keep)

  pub modify_row-absent :
      (id : ℕ) (f : A → A) (xs : List A) → get_row key id xs ≡ none → modify_row key id f xs ≡ xs
  unfolding get_row modify_row
  modify_row-absent id f [] h = refl
  modify_row-absent id f (x ∷ xs) h = ground (arith, modify_row-absent id f xs)

  pub get_row-map :
      (id : ℕ) (f : A → A) (xs : List A) (x : A)
      → ((y : A) → key (f y) ≡ key y)
      → get_row key id xs ≡ some x
      → get_row key id (map f xs) ≡ some (f x)
  unfolding get_row
  get_row-map id f [] x keep h = ground arith
  get_row-map id f (z ∷ xs) x keep h = ground (arith, keep z, get_row-map id f xs x keep)

  absent-map :
      (id : ℕ) (f : A → A) (xs : List A)
      → ((y : A) → key (f y) ≡ key y)
      → get_row key id xs ≡ none
      → get_row key id (map f xs) ≡ none
  unfolding get_row
  absent-map id f [] keep h = refl
  absent-map id f (z ∷ xs) keep h = ground (arith, keep z, absent-map id f xs keep)

  pub map-UniqueKeys :
      (f : A → A) (xs : List A)
      → ((y : A) → key (f y) ≡ key y)
      → UniqueKeys xs
      → UniqueKeys (map f xs)
  map-UniqueKeys f [] keep h = tt
  map-UniqueKeys f (x ∷ xs) keep h =
      (rw (keep x) (absent-map (key x) f xs keep h.0), map-UniqueKeys f xs keep h.1)
