-- ===== src/Float.antt =====
-- Go's `float64` as an interface: the operations that the code applies to credits, and no laws.
use qoder_2api_go.Prelude.{ℕ, ◌+◌, ◌/◌, Bool, ltb, leb}

pub record FloatOps (R : Type 0) : Type 0 where
  -- the conversion of an integer constant or counter
  pub of_ℕ : ℕ → R
  pub add : R → R → R
  pub div : R → R → R
  -- `a < b` and `a <= b`
  pub lt : R → R → Bool
  pub le : R → R → Bool

-- Whole credits, for tests: these run through the model on concrete inputs.
abbrev pub whole_credits : FloatOps ℕ
whole_credits = record { of_ℕ = λ n. n; add = λ a b. a + b; div = λ a b. a / b; lt = ltb; le = leb }
