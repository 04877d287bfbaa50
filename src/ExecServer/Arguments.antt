-- ===== src/ExecServer/Arguments.antt =====
-- consumeJob's loop: strtok_r with the delimiters " \n" fills `args`, of ARG_MAX entries.
use distributed_queue_system.Base.{
  ℕ, zero, suc, ◌-◌, Bool, ◌||◌, List, [], ◌∷◌, Option, none, some, length, take, ◌==◌,
  if◌then◌else◌,
}
use distributed_queue_system.Proto.{arg_max}

-- A byte of the delimiter string, and the end of the string.
abbrev pub is_delim : ℕ → Bool
is_delim c = c == 32 || c == 10

-- The bytes up to the terminator. Where an array has none, as strncpy leaves it for 256 bytes or more,
-- these are all of it, and the source reads on behind it.
unfoldable pub c_string : List ℕ → List ℕ
c_string [] = []
c_string (c ∷ cs) = if c == 0 then [] else c ∷ c_string cs

unfoldable pub skip_delims : List ℕ → List ℕ
skip_delims [] = []
skip_delims (c ∷ cs) = if is_delim c then skip_delims cs else c ∷ cs

-- The bytes before the next delimiter, and what follows it.
unfoldable pub token : List ℕ → List ℕ
token [] = []
token (c ∷ cs) = if is_delim c then [] else c ∷ token cs

unfoldable pub behind_token : List ℕ → List ℕ
behind_token [] = []
behind_token (c ∷ cs) = if is_delim c then cs else behind_token cs

-- strtok_r: a token and the rest, or `none` where only delimiters are left.
unfoldable pub strtok_r : List ℕ → Option (List ℕ × List ℕ)
unfolding skip_delims token behind_token
strtok_r s = elim (skip_delims s) [
  | [] ↦ none
  | c ∷ cs ↦ some (token (c ∷ cs), behind_token (c ∷ cs))
]

-- The tokens of at most `rounds` calls.
unfoldable pub tokens : ℕ → List ℕ → List (List ℕ)
unfolding strtok_r
tokens zero s = []
tokens (suc rounds) s = elim (strtok_r s) [ none ↦ [] | some (t, rest) ↦ t ∷ tokens rounds rest ]

-- `args` up to its NULL: after ARG_MAX tokens the last is replaced by NULL.
unfoldable pub args : List ℕ → List (List ℕ)
unfolding c_string
args line =
    let all = tokens arg_max (c_string line) in
    if length all == arg_max then take (arg_max - 1) all else all
