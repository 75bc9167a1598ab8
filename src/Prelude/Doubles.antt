-- ===== src/Prelude/Doubles.antt =====
-- IEEE doubles as an interface: the operations of `double` that the program uses. The comparisons
-- are Boolean tests of their own, since `a < b` and `b <= a` are both false at a NaN.
use Prim.Native.Nat.{ℕ}
use Prim.Native.String.{String}
use mathlib.Core.Path.{◌≡◌}
use mathlib.Core.Bool.{Bool, true, false}
use companion_lab.Prelude.Int.{ℤ}

pub record Doubles (D : Type 0) : Type 0 where
  -- The double nearest to m / 10 ^ k.
  pub of_decimal : ℕ → ℕ → D
  pub of_int : ℤ → D
  pub is_finite : D → Bool
  pub lt : D → D → Bool
  pub le : D → D → Bool
  pub eq : D → D → Bool
  pub add : D → D → D
  pub sub : D → D → D
  pub mul : D → D → D
  pub div : D → D → D
  pub trunc : D → D
  pub abs : D → D
  -- `static_cast` to an unsigned type.
  pub to_ℕ : D → ℕ
  -- `std::fixed << std::setprecision(k)`, and the stream's default format.
  pub fixed : ℕ → D → String
  pub general : D → String

-- What the comparison `<` of finite doubles is: a strict order in which two numbers that neither is
-- before the other are alike.
pub record IsOrdered {D : Type 0} (d : Doubles D) : Type 0 where
  pub lt_asym : (a b : D) → d.lt a b ≡ true → d.lt b a ≡ false
  pub lt_cotrans :
      (a b c : D) → d.is_finite b ≡ true → d.lt b a ≡ false → d.lt c b ≡ false → d.lt c a ≡ false
