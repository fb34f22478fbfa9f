-- ===== src/Prelude/Strip.antt =====
-- `str.strip()` of Python: the code points that `str.isspace` takes go from both ends.
use Prim.Native.Char.{Char, code}
use Prim.Native.String.{String, [], ◌∷◌}
use Prim.Native.Nat.{ℕ}
use mathlib.Core.Path.{◌≡◌, refl}
use mathlib.Core.Bool.{Bool, false, ◌&&◌, ◌||◌}
use mathlib.Core.Logic.{inl, inr}
use native.Mathlib.Omega.{arith}
use text.Mathlib.TextLemmas.{cons-ne-nil}
use spark_pilot.Prelude.Tests.{◌==◌, leb, if◌then◌else◌, Bool-cases}
use spark_pilot.Prelude.Text.{is_blank, eq_iff}

abbrev between : ℕ → ℕ → ℕ → Bool
between lo hi c = leb lo c && leb c hi

unfoldable pub is_space : ℕ → Bool
is_space c =
    between 9 13 c
    || between 28 32 c
    || c == 0x85
    || c == 0xa0
    || c == 0x1680
    || between 0x2000 0x200a c
    || between 0x2028 0x2029 c
    || c == 0x202f
    || c == 0x205f
    || c == 0x3000

unfoldable pub strip_left : String → String
strip_left [] = ""
strip_left (c ∷ s) = let rest = strip_left s in if is_space (code c) then rest else c ∷ s

unfoldable pub strip_right : String → String
strip_right [] = ""
strip_right (c ∷ s) =
    let rest = strip_right s in if is_space (code c) && is_blank rest then "" else c ∷ rest

unfoldable pub strip : String → String
strip s = strip_left (strip_right s)

-- Every code point of a text satisfies `P`.
abbrev pub AllCodes : (ℕ → Type 0) → String → Type 0
AllCodes P [] = Unit
AllCodes P (c ∷ s) = P (code c) × AllCodes P s

-- The last code point is a space.
abbrev pub ends_space : String → Bool
ends_space [] = false
ends_space (c ∷ []) = is_space (code c)
ends_space (c ∷ d ∷ s) = ends_space (d ∷ s)

cons-clean :
    (c : Char) (rest : String)
    → (is_space (code c) && is_blank rest) ≡ false
    → ends_space rest ≡ false
    → ends_space (c ∷ rest) ≡ false
cons-clean c [] h clean = ground arith
cons-clean c (d ∷ s) h clean = clean

pub tail-clean : (c : Char) (s : String) → ends_space (c ∷ s) ≡ false → ends_space s ≡ false
tail-clean c [] h = refl
tail-clean c (d ∷ s) h = h

strip_right-clean : (s : String) → ends_space (strip_right s) ≡ false
unfolding strip_right
strip_right-clean [] = refl
strip_right-clean (c ∷ s) = elim (Bool-cases (is_space (code c) && is_blank (strip_right s))) [
  | inl e ↦ rw e refl
  | inr e ↦ rw e (cons-clean c (strip_right s) e (strip_right-clean s))
]

strip_left-clean : (s : String) → ends_space s ≡ false → ends_space (strip_left s) ≡ false
unfolding strip_left
strip_left-clean [] h = refl
strip_left-clean (c ∷ s) h = elim (Bool-cases (is_space (code c))) [
  | inl e ↦ rw e (strip_left-clean s (tail-clean c s h))
  | inr e ↦ rw e h
]

-- What is stripped does not end in a space.
pub strip-clean : (s : String) → ends_space (strip s) ≡ false
unfolding strip
strip-clean s = strip_left-clean (strip_right s) (strip_right-clean s)

pub is_blank-cons : (c : Char) (s : String) → is_blank (c ∷ s) ≡ false
is_blank-cons c s = elim (Bool-cases (is_blank (c ∷ s))) [
  | inl e ↦ absurd (cons-ne-nil c s ((eq_iff (c ∷ s) "").0 e))
  | inr e ↦ e
]
