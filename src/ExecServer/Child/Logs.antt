-- ===== src/ExecServer/Child/Logs.antt =====
-- The files that take the output of the jobs that are not interactive.
use distributed_queue_system.Base.{
  ℕ, ◌<◌, ◌≡◌, ◌≢◌, refl, sym, ap, ◌∙◌, true, false, List, [], ◌∷◌, ◌++◌, arith, All, ◌⊎◌, inl, inr,
}
use distributed_queue_system.Text.{codes, is_digit, print_decimal, atoi}
use distributed_queue_system.Text.Decimal.{atoi-print_decimal, print_decimal-All}
use distributed_queue_system.Proto.RoundTrip.{u16_mod}
use distributed_queue_system.ExecServer.Child.{log_name, out_name, err_name}

-- The digits at the start of a text.
unfoldable span_digits : List ℕ → List ℕ
span_digits [] = []
span_digits (c ∷ s) = elim (is_digit c) [ true ↦ c ∷ span_digits s | false ↦ [] ]

span_digits-All :
    (s : List ℕ) → All (λ c. is_digit c ≡ true) s → span_digits (s ++ codes ".log") ≡ s
unfolding span_digits
span_digits-All [] a = refl
span_digits-All (c ∷ s) (d, a) = ground (arith, d, span_digits-All s a)

-- The number that a log's name holds, behind its first five bytes.
abbrev number_of : List ℕ → ℕ
number_of (a ∷ b ∷ c ∷ d ∷ e ∷ s) = atoi (span_digits s)
number_of s = 0

number_of-print_decimal :
    (i : ℕ) → i < u16_mod → atoi (span_digits (print_decimal i ++ codes ".log")) ≡ i
number_of-print_decimal i h =
    ap atoi (span_digits-All (print_decimal i) (print_decimal-All i))
    ∙ atoi-print_decimal i (omega arith)

abbrev second : List ℕ → ℕ
second (a ∷ b ∷ s) = b
second s = 0

second_apart : ◌≢◌ {A = ℕ} 111 101
second_apart = omega arith

-- Two jobs with different ids share no file for their output, nor one for their errors, and no
-- file takes the output of one job and the errors of a job.
pub log_names_apart :
    (i j : ℕ)
    → i < u16_mod
    → j < u16_mod
    → ((out_name i ≡ out_name j) ⊎ (err_name i ≡ err_name j) → i ≡ j) × (out_name i ≢ err_name j)
unfolding log_name
log_names_apart i j hi hj = (
  λ x. sym (number_of-print_decimal i hi) ∙ (same x ∙ number_of-print_decimal j hj),
  λ e. second_apart (ap second e),
)
  where
    same :
        (out_name i ≡ out_name j) ⊎ (err_name i ≡ err_name j)
        → atoi (span_digits (print_decimal i ++ codes ".log"))
          ≡ atoi (span_digits (print_decimal j ++ codes ".log"))
    same (inl e) = ap number_of e
    same (inr e) = ap number_of e
