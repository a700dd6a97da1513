-- ===== src/Prelude/Arrays.antt =====
-- A C array as a function of its index. What an operation touches outside the array's bounds is a
-- matter of the theorems that say where it reads and writes.
use Prim.Native.Nat.{ℕ}
use mathlib.Core.Path.{◌≡◌}
use mathlib.Core.Logic.{◌≢◌}
use native.Mathlib.Omega.{arith}
use swift_bsd.Prelude.Tests.{◌==◌, if◌then◌else◌}

module _ {ℓ} {A : Type ℓ} where
  -- `a[i] = v`
  abbrev pub update : (ℕ → A) → ℕ → A → ℕ → A
  update f i v j = if i == j then v else f j

  pub update_same : (f : ℕ → A) (i : ℕ) (v : A) → update f i v i ≡ v
  update_same f i v = ground arith

  pub update_other : (f : ℕ → A) (i j : ℕ) (v : A) → i ≢ j → update f i v j ≡ f j
  update_other f i j v h = ground arith
