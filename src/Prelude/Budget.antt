-- ===== src/Prelude/Budget.antt =====
-- The tests of a byte count against a share of the GPU budget, `gpu_bytes > budget * 0.85` and the
-- like. The product is a floating-point number, so the tests are taken as an interface: `at_most`
-- stands for `bytes <= budget * (percent / 100)` and `below` for `bytes < budget * (percent / 100)`.
-- Python compares an integer with a float exactly, and floating-point multiplication is monotone.
use orch_kv_cache.Prelude.{ℕ, ◌*◌, ◌≤◌, ◌≡◌, Bool, true, arith, leb, ltb}

pub record BudgetTest : Type 0 where
  pub at_most : (bytes budget percent : ℕ) → Bool
  pub below : (bytes budget percent : ℕ) → Bool
  pub at_most_mono :
      (a b budget p : ℕ) → a ≤ b → at_most b budget p ≡ true → at_most a budget p ≡ true
  pub at_most_of_below :
      (a budget p q : ℕ) → p ≤ q → below a budget p ≡ true → at_most a budget q ≡ true

pub exact_mono :
    (a b budget p : ℕ)
    → a ≤ b
    → leb (100 * b) (budget * p) ≡ true
    → leb (100 * a) (budget * p) ≡ true
exact_mono a b budget p h e = ground arith

pub exact_of_below :
    (a budget p q : ℕ)
    → p ≤ q
    → ltb (100 * a) (budget * p) ≡ true
    → leb (100 * a) (budget * q) ≡ true
exact_of_below a budget p q h e = grind arith

-- The tests over exact rational numbers, which runs use.
abbrev pub exact : BudgetTest
exact = record {
  at_most = λ bytes budget percent. leb (100 * bytes) (budget * percent);
  below = λ bytes budget percent. ltb (100 * bytes) (budget * percent);
  at_most_mono = exact_mono;
  at_most_of_below = exact_of_below;
}
