-- ===== src/Text/Words.antt =====
-- What scanf and getline take from an input that is known to begin with a word or a line.
use distributed_queue_system.Base.{
  ℕ, ◌≡◌, ◌≢◌, refl, true, false, List, [], ◌∷◌, ◌++◌, some, arith, ◌==◌, All, All-mono,
}
use distributed_queue_system.Text.{
  is_space, skip_spaces, span_word, scan_word, get_line, print_decimal,
}
use distributed_queue_system.Text.Decimal.{print_decimal-All, print_decimal-ne-nil}

-- Bytes that scanf takes as one word.
pub record IsWord (w : List ℕ) : Type 0 where
  pub some_byte : w ≢ []
  pub no_space : All (λ c. is_space c ≡ false) w

span_word-append :
    (w : List ℕ) (c : ℕ) (rest : List ℕ)
    → All (λ d. is_space d ≡ false) w
    → is_space c ≡ true
    → span_word (w ++ c ∷ rest) ≡ (w, c ∷ rest)
unfolding span_word
span_word-append [] c rest a h = ground (arith, h)
span_word-append (d ∷ w) c rest a h = ground (arith, a.0, span_word-append w c rest a.1 h)

-- A word with a space behind it is read, and the space is left.
pub scan_word-IsWord :
    (w : List ℕ) (c : ℕ) (rest : List ℕ)
    → IsWord w
    → is_space c ≡ true
    → scan_word (w ++ c ∷ rest) ≡ (w, c ∷ rest)
unfolding scan_word skip_spaces
scan_word-IsWord [] c rest v h = absurd (v.some_byte refl)
scan_word-IsWord (d ∷ w) c rest v h =
    ground (arith, v.no_space.0, span_word-append (d ∷ w) c rest v.no_space h)

-- A line without a newline inside is read with the newline behind it.
pub get_line-append :
    (l rest : List ℕ)
    → All (λ c. (c == 10) ≡ false) l
    → get_line (l ++ 10 ∷ rest) ≡ some (l ++ 10 ∷ [], rest)
unfolding get_line
get_line-append [] rest a = refl
get_line-append (c ∷ l) rest a = ground (arith, a.0, get_line-append l rest a.1)

pub print_decimal-IsWord : (n : ℕ) → IsWord (print_decimal n)
print_decimal-IsWord n = record {
  some_byte = print_decimal-ne-nil n;
  no_space = All-mono (print_decimal n) (λ c h. ground (arith, h)) (print_decimal-All n);
}
