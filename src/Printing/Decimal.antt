-- ===== src/Printing/Decimal.antt =====
-- Numbers in decimal: what is printed can be read back, and the digits are digits.
use round_sync.Base.{
  ℕ, zero, suc, ◌+◌, ◌-◌, ◌*◌, ◌/◌, ◌%◌, ◌≤◌, ◌<◌, ◌≡◌, sym, ap, ◌∙◌, List, [], ◌∷◌, ◌++◌, All,
  arith, ltb, Bool-cases, inl, inr, u64_mod,
}
use round_sync.Printing.{decimal_digits, decimal}

-- The number that digits write, after `n`.
read_digits : ℕ → List ℕ → ℕ
read_digits n [] = n
read_digits n (c ∷ cs) = read_digits (n * 10 + (c - b'0')) cs

read_digits-snoc :
    (n : ℕ) (cs : List ℕ) (d : ℕ)
    → read_digits n (cs ++ ((b'0' + d) ∷ [])) ≡ read_digits n cs * 10 + d
unfolding read_digits
read_digits-snoc n [] d = omega arith
read_digits-snoc n (c ∷ cs) d = read_digits-snoc (n * 10 + (c - b'0')) cs d

-- 10 to the power `places`.
bound : ℕ → ℕ
bound zero = 1
bound (suc places) = 10 * bound places

read_digits-decimal_digits :
    (places n : ℕ) → n < bound places → read_digits 0 (decimal_digits places n) ≡ n
unfolding decimal_digits read_digits bound
read_digits-decimal_digits zero n h = omega arith
read_digits-decimal_digits (suc places) n h = elim (Bool-cases (ltb n 10)) [
  | inl e ↦ rw e (omega arith)
  | inr e ↦ rw e (
      rw
        (
          read_digits-snoc 0 (decimal_digits places (n / 10)) (n % 10),
          read_digits-decimal_digits places (n / 10) (omega arith),
        )
        (omega arith))
]

-- Different numbers of 64 bits are printed differently.
pub decimal-injective : (a b : ℕ) → a < u64_mod → b < u64_mod → decimal a ≡ decimal b → a ≡ b
unfolding decimal bound
decimal-injective a b h k e =
    let fits : (n : ℕ) → n < u64_mod → n < bound 20 = λ n m. omega arith in
    sym (read_digits-decimal_digits 20 a (fits a h))
    ∙ ap (read_digits 0) e
    ∙ read_digits-decimal_digits 20 b (fits b k)

abbrev pub IsDigit : ℕ → Type 0
IsDigit c = (b'0' ≤ c) × (c ≤ b'9')

All-snoc : (cs : List ℕ) (c : ℕ) → All IsDigit cs → IsDigit c → All IsDigit (cs ++ (c ∷ []))
All-snoc [] c h k = (k, tt)
All-snoc (x ∷ cs) c h k = (h.0, All-snoc cs c h.1 k)

decimal_digits-IsDigit : (places n : ℕ) → All IsDigit (decimal_digits places n)
unfolding decimal_digits
decimal_digits-IsDigit zero n = tt
decimal_digits-IsDigit (suc places) n = elim (Bool-cases (ltb n 10)) [
  | inl e ↦ rw e (ground (arith, e), tt)
  | inr e ↦ rw e (All-snoc _ _ (decimal_digits-IsDigit places (n / 10)) (omega arith, omega arith))
]

pub decimal-IsDigit : (n : ℕ) → All IsDigit (decimal n)
unfolding decimal
decimal-IsDigit n = decimal_digits-IsDigit 20 n
