-- ===== src/Hashing/Decimal.antt =====
-- domain/hashing.py: the digits of a number in JSON.
use Prim.Native.String.{◌++◌ as concat}
use google_workspace_gmail_a.Common.{
  ℕ, zero, suc, ◌/◌, ◌%◌, ◌<◌, String, ◌≡◌, refl, ltb, inl, inr, Bool-cases, arith,
}
use google_workspace_gmail_a.Hashing.{digit, decimal_onto}

-- Each step divides by ten, so more steps than the number print no more digits.
decimal_onto_enough :
    (steps n : ℕ) (tail : String)
    → n < steps
    → decimal_onto steps n tail ≡ decimal_onto (suc steps) n tail
decimal_onto_enough zero n tail h = absurd (omega arith)
decimal_onto_enough (suc steps) n tail h = elim (Bool-cases (ltb n 10)) [
  | inl e ↦ rw e refl
  | inr e ↦ rw e (decimal_onto_enough steps (n / 10) (concat (digit (n % 10)) tail) (ground arith))
]
