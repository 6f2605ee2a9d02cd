-- ===== src/Prelude/Floats.antt =====
-- Python's `float`, as an interface: its operations are not those of the rationals, so the model
-- takes them as they are.
use Prim.Native.Nat.{ℕ}
use mathlib.Core.Path.{◌≡◌}
use mathlib.Core.Bool.{Bool, true, false}

pub record Floats : Type 1 where
  pub F : Type 0
  pub of_int : ℕ → F
  pub add : F → F → F
  pub mul : F → F → F
  pub div : F → F → F
  pub fmax : F → F → F
  pub lt : F → F → Bool

-- `<` on floats: irreflexive and transitive, also where one of them is not a number.
pub record IsOrdered (f : Floats) : Type 0 where
  pub irrefl : (x : f.F) → f.lt x x ≡ false
  pub trans : (x y z : f.F) → f.lt x y ≡ true → f.lt y z ≡ true → f.lt x z ≡ true
