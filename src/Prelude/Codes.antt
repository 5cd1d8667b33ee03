-- ===== src/Prelude/Codes.antt =====
-- Text as a list of code points: `&str` and `String` of the source, and byte strings.
use Prim.Native.Nat.{ℕ}
use Prim.Native.Char.{code}
use Prim.Native.String.{String}
use mathlib.Core.Path.{◌≡◌, refl}
use mathlib.Core.Logic.{◌↔◌}
use mathlib.Core.Bool.{Bool, true, false, ◌&&◌}
use mathlib.Core.List.{List, [], ◌∷◌}
use native.Mathlib.Omega.{arith}
use arx_runa.Prelude.Tests.{◌==◌}

abbrev pub Text : Type 0
Text = List ℕ

-- Bytes are numbers below 256.
abbrev pub Bytes : Type 0
Bytes = List ℕ

abbrev pub codes : String → Text
codes String.[] = []
codes (String.◌∷◌ c s) = code c ∷ codes s

infix 50 ◌===◌
unfoldable pub ◌===◌ : Text → Text → Bool
[] === [] = true
[] === (y ∷ ys) = false
(x ∷ xs) === [] = false
(x ∷ xs) === (y ∷ ys) = x == y && xs === ys

pub ===→eq : (xs ys : Text) → (xs === ys) ≡ true → xs ≡ ys
unfolding ◌===◌
===→eq [] [] h = refl
===→eq [] (y ∷ ys) h = cc
===→eq (x ∷ xs) [] h = cc
===→eq (x ∷ xs) (y ∷ ys) h = ground (arith, ===→eq xs ys)

pub ===_refl : (xs : Text) → (xs === xs) ≡ true
unfolding ◌===◌
===_refl [] = refl
===_refl (x ∷ xs) = ground (arith, ===_refl xs)

pub ===_iff : (xs ys : Text) → ((xs === ys) ≡ true) ↔ (xs ≡ ys)
===_iff xs ys = (===→eq xs ys, λ e. cc (e, ===_refl xs))
