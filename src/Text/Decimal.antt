-- ===== src/Text/Decimal.antt =====
-- What `%d` prints, atoi reads.
use distributed_queue_system.Base.{
  ℕ, zero, suc, ◌+◌, ◌*◌, ◌/◌, ◌%◌, ◌^◌, ◌≤◌, ◌<◌, ◌≡◌, ◌≢◌, refl, ◌∙◌, true, List, [], ◌∷◌, arith,
  length, All, lt-or-le, eq-or-ne, lt→ltb, le→ltb, inl, inr,
}
use distributed_queue_system.Text.{
  is_digit, skip_spaces, read_digits, read_signed, atoi, digits, print_decimal,
}

-- What `count` digits can print.
abbrev limit : ℕ → ℕ
limit zero = 1
limit (suc count) = 10 * limit count

read_digits-digits :
    (count n : ℕ) (out : List ℕ)
    → n < limit count
    → 0 < n
    → read_digits 0 (digits count n out) ≡ read_digits n out
unfolding read_digits digits
read_digits-digits zero n out h z = absurd (omega arith)
read_digits-digits (suc count) n out h z = elim (lt-or-le n 10) [
  | inl lt ↦ ground arith
  | inr le ↦ ground (arith, read_digits-digits count (n / 10) ((48 + n % 10) ∷ out))
]

zero_read : read_digits 0 (digits 10 0 []) ≡ 0
unfolding read_digits digits
zero_read = refl

-- The printed bytes are digits, and there is one at least.
digits-All :
    (count n : ℕ) (out : List ℕ)
    → All (λ c. is_digit c ≡ true) out
    → All (λ c. is_digit c ≡ true) (digits count n out)
unfolding digits
digits-All zero n out a = a
digits-All (suc count) n out a = elim (lt-or-le n 10) [
  | inl lt ↦ rw (lt→ltb n 10 lt) (ground arith, a)
  | inr le ↦ rw (le→ltb n 10 le) (digits-All count (n / 10) ((48 + n % 10) ∷ out) (ground arith, a))
]

digits-ne-nil : (count n : ℕ) (out : List ℕ) → out ≢ [] → digits count n out ≢ []
unfolding digits
digits-ne-nil zero n out h e = h e
digits-ne-nil (suc count) n out h e =
    ground (arith, digits-ne-nil count (n / 10) ((48 + n % 10) ∷ out))

pub print_decimal-All : (n : ℕ) → All (λ c. is_digit c ≡ true) (print_decimal n)
unfolding print_decimal
print_decimal-All n = digits-All 10 n [] tt

pub print_decimal-ne-nil : (n : ℕ) → print_decimal n ≢ []
unfolding print_decimal digits
print_decimal-ne-nil n e = ground (arith, digits-ne-nil 9 (n / 10) ((48 + n % 10) ∷ []))

read_digits-print_decimal : (n : ℕ) → n < 2 ^ 31 → read_digits 0 (print_decimal n) ≡ n
unfolding print_decimal read_digits
read_digits-print_decimal n h = elim (eq-or-ne n 0) [
  | inl z ↦ rw z zero_read
  | inr nz ↦ read_digits-digits 10 n [] (omega arith) (omega arith)
]

-- On digits atoi needs no sign and skips nothing.
atoi-digits :
    (s : List ℕ)
    → All (λ c. is_digit c ≡ true) s
    → read_digits 0 s < 2 ^ 31
    → atoi s ≡ read_digits 0 s
unfolding atoi skip_spaces read_signed read_digits
atoi-digits [] a h = refl
atoi-digits (c ∷ s) a h = ground (arith, a.0)

-- atoi reads back each number that `%d` prints, if it is not negative and fits an `int`.
pub atoi-print_decimal : (n : ℕ) → n < 2 ^ 31 → atoi (print_decimal n) ≡ n
atoi-print_decimal n h =
    let r = read_digits-print_decimal n h in
    atoi-digits (print_decimal n) (print_decimal-All n) (omega (arith, r)) ∙ r

digits-length : (count n : ℕ) (out : List ℕ) → length (digits count n out) ≤ count + length out
unfolding digits
digits-length zero n out = omega arith
digits-length (suc count) n out = ground (arith, digits-length count (n / 10) ((48 + n % 10) ∷ out))

pub print_decimal-length : (n : ℕ) → length (print_decimal n) ≤ 10
unfolding print_decimal
print_decimal-length n = omega (arith, digits-length 10 n [])
