-- ===== src/Prelude/Float.antt =====
-- Python's `float`: the operations that the programs use, as a parameter, and what is relied on.
use mathlib.Core.Path.{◌≡◌}
use mathlib.Core.Bool.{Bool, true, false}
use Prim.Native.Nat.{ℕ}

pub record Float {ℓ} (F : Type ℓ) : Type ℓ where
  pub decimal : ℕ → ℕ → F  -- `decimal m k` is the literal for m / 10 ^ k
  pub infinity : F
  pub pi : F
  pub of_nat : ℕ → F
  pub ratio : ℕ → ℕ → F  -- `/` of two integers
  pub plus : F → F → F
  pub minus : F → F → F
  pub times : F → F → F
  pub divide : F → F → F
  pub negate : F → F
  pub pow2 : F → F  -- `2.0 ** x`
  pub exp : F → F
  pub sin : F → F
  pub less : F → F → Bool
  pub leq : F → F → Bool

-- The laws of `<` that doubles have, NaN included.
pub record IsOrdered {ℓ} (F : Type ℓ) ⦃float : Float F⦄ : Type ℓ where
  pub less_irrefl : (x : F) → float.less x x ≡ false
  pub less_trans :
      (x y z : F) → float.less x y ≡ true → float.less y z ≡ true → float.less x z ≡ true
