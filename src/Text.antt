-- ===== src/Text.antt =====
-- The C library's functions on text that the programs call: atoi, `%d` of printf, strcmp, and
-- scanf's `%s`, getchar and getline on the bytes that are still to be read.
pub mod Decimal
pub mod Words
use Prim.Native.Char.{code}
use Prim.Native.String.{String}
use distributed_queue_system.Base.{
  ℕ, zero, suc, ◌+◌, ◌-◌, ◌*◌, ◌/◌, ◌%◌, ◌^◌, Bool, true, false, ◌&&◌, ◌||◌, List, [], ◌∷◌, Option,
  none, some, leb, ltb, ◌==◌, if◌then◌else◌,
}

-- The bytes of a text in ASCII.
abbrev pub codes : String → List ℕ
codes String.[] = []
codes (String.◌∷◌ c s) = code c ∷ codes s

-- isspace
abbrev pub is_space : ℕ → Bool
is_space c = c == 32 || leb 9 c && leb c 13

abbrev pub is_digit : ℕ → Bool
is_digit c = leb 48 c && leb c 57

-- Whether strcmp gives 0, on the bytes before the terminators.
unfoldable pub same_text : List ℕ → List ℕ → Bool
same_text [] [] = true
same_text [] (d ∷ t) = false
same_text (c ∷ s) [] = false
same_text (c ∷ s) (d ∷ t) = c == d && same_text s t

unfoldable pub skip_spaces : List ℕ → List ℕ
skip_spaces [] = []
skip_spaces (c ∷ s) = if is_space c then skip_spaces s else c ∷ s

-- The digits at the start, after those whose value is `n`.
unfoldable pub read_digits : ℕ → List ℕ → ℕ
read_digits n [] = n
read_digits n (c ∷ s) = elim (is_digit c) [ true ↦ read_digits (n * 10 + (c - 48)) s | false ↦ n ]

abbrev pub clamp : ℕ → ℕ → ℕ
clamp top n = if leb n top then n else top

-- The value of an optional sign and digits, as a 64-bit `long` that stops at its limits, cut to the
-- 32 bits of an `int`.
unfoldable pub read_signed : List ℕ → ℕ
unfolding read_digits
read_signed [] = 0
read_signed (c ∷ s) =
    if c == b'-'
    then (2 ^ 64 - clamp (2 ^ 63) (read_digits 0 s)) % 2 ^ 32
    else clamp (2 ^ 63 - 1) (read_digits 0 (if c == b'+' then s else c ∷ s)) % 2 ^ 32

-- atoi, as the 32-bit pattern of its result.
unfoldable pub atoi : List ℕ → ℕ
unfolding read_signed skip_spaces
atoi s = read_signed (skip_spaces s)

-- The decimal digits of a number, before `out`; the first argument bounds their count.
unfoldable pub digits : ℕ → ℕ → List ℕ → List ℕ
digits zero n out = out
digits (suc count) n out =
    let rest = digits count (n / 10) ((48 + n % 10) ∷ out) in
    if ltb n 10 then (48 + n) ∷ out else rest

-- `%d` of a number that is not negative: an `int` has at most ten digits.
unfoldable pub print_decimal : ℕ → List ℕ
unfolding digits
print_decimal n = digits 10 n []

-- The bytes up to the next space, and what follows them.
unfoldable pub span_word : List ℕ → List ℕ × List ℕ
span_word [] = ([], [])
span_word (c ∷ s) = let (w, rest) = span_word s in if is_space c then ([], c ∷ s) else (c ∷ w, rest)

-- scanf's `%s`: the next word of the input, which is empty at its end, and the rest of the input.
unfoldable pub scan_word : List ℕ → List ℕ × List ℕ
unfolding skip_spaces span_word
scan_word input = span_word (skip_spaces input)

-- getchar drops a byte.
abbrev pub drop_char : List ℕ → List ℕ
drop_char [] = []
drop_char (c ∷ s) = s

-- getline: a line with its newline; `none` at the end of the input.
unfoldable pub get_line : List ℕ → Option (List ℕ × List ℕ)
get_line [] = none
get_line (c ∷ s) = elim (c == 10) [
  | true ↦ some (c ∷ [], s)
  | false ↦ elim (get_line s) [ none ↦ some (c ∷ [], []) | some (l, rest) ↦ some (c ∷ l, rest) ]
]

-- The text that `%s` of printf reads in an array: `none` where it has no terminator, and printf reads
-- past its end.
unfoldable pub terminated : List ℕ → Option (List ℕ)
terminated [] = none
terminated (c ∷ s) = elim (c == 0) [
  | true ↦ some []
  | false ↦ elim (terminated s) [ none ↦ none | some t ↦ some (c ∷ t) ]
]
