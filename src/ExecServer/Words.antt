-- ===== src/ExecServer/Words.antt =====
-- consumeJob's arguments against a description of the words of a line.
use distributed_queue_system.Base.{
  ℕ, zero, suc, ◌-◌, ◌≡◌, refl, ap, ◌∙◌, sym, false, List, [], ◌∷◌, arith, length, take, ◌==◌,
  if◌then◌else◌,
}
use distributed_queue_system.Proto.{arg_max}
use distributed_queue_system.ExecServer.Arguments.{
  is_delim, c_string, skip_delims, token, behind_token, tokens, args,
}

-- A word is a longest run of bytes that are no delimiters: `split` gives the run at the start, which
-- may be empty, and the words behind it.
unfoldable pub add_word : List ℕ → List (List ℕ) → List (List ℕ)
add_word [] ws = ws
add_word (c ∷ w) ws = (c ∷ w) ∷ ws

unfoldable pub split : List ℕ → List ℕ × List (List ℕ)
split [] = ([], [])
split (c ∷ cs) = let (w, ws) = split cs in if is_delim c then ([], add_word w ws) else (c ∷ w, ws)

unfoldable pub words : List ℕ → List (List ℕ)
words s = let (w, ws) = split s in add_word w ws

words_lem : (t : List ℕ) → words t ≡ add_word (split t).0 (split t).1
unfolding words
words_lem t = refl

words_nil : words [] ≡ []
unfolding words split add_word
words_nil = refl

words-skip_delims : (s : List ℕ) → words (skip_delims s) ≡ words s
unfolding words skip_delims split add_word
words-skip_delims [] = refl
words-skip_delims (c ∷ cs) = ground (arith, words-skip_delims cs)

split-token : (s : List ℕ) → split s ≡ (token s, words (behind_token s))
unfolding words split token behind_token add_word
split-token [] = refl
split-token (c ∷ cs) = ground (arith, split-token cs)

-- The first byte that skip_delims leaves is no delimiter.
skip_delims-first : (s : List ℕ) (c : ℕ) (cs : List ℕ) → skip_delims s ≡ c ∷ cs → is_delim c ≡ false
unfolding skip_delims
skip_delims-first [] c cs e = cc
skip_delims-first (x ∷ s) c cs e = ground (arith, skip_delims-first s c cs)

words-first :
    (s : List ℕ) (c : ℕ) (cs : List ℕ)
    → skip_delims s ≡ c ∷ cs
    → words s ≡ token (c ∷ cs) ∷ words (behind_token (c ∷ cs))
unfolding add_word token
words-first s c cs e =
    sym (words-skip_delims s)
    ∙ (ap words e
        ∙ (words_lem (c ∷ cs) ∙ ground (arith, split-token (c ∷ cs), skip_delims-first s c cs e)))

words-none : (s : List ℕ) → skip_delims s ≡ [] → words s ≡ []
words-none s e = sym (words-skip_delims s) ∙ (ap words e ∙ words_nil)

-- As many calls of strtok_r as one likes give the first words of the line.
pub tokens-take : (n : ℕ) (s : List ℕ) → tokens n s ≡ take n (words s)
unfolding tokens
tokens-take zero s = refl
tokens-take (suc n) s = go (skip_delims s) refl (λ rest. tokens-take n rest)
  where
    go :
        (r : List ℕ)
        → skip_delims s ≡ r
        → ((rest : List ℕ) → tokens n rest ≡ take n (words rest))
        → tokens (suc n) s ≡ take (suc n) (words s)
    go [] e ih = ground (arith, e, words-none s e)
    go (c ∷ cs) e ih = ground (arith, e, words-first s c cs e, ih (behind_token (c ∷ cs)))

cut :
    (n : ℕ) (ws : List (List ℕ))
    → (if length (take (suc n) ws) == suc n then take n (take (suc n) ws) else take (suc n) ws)
      ≡ take n ws
cut zero [] = refl
cut zero (w ∷ ws) = refl
cut (suc n) [] = ground arith
cut (suc n) (w ∷ ws) = ground (arith, cut n ws)

-- consumeJob passes the first 19 words of the line to execvp.
pub args_lem : (line : List ℕ) → args line ≡ take (arg_max - 1) (words (c_string line))
unfolding args
args_lem line =
    ap (λ all. if length all == arg_max then take (arg_max - 1) all else all)
      (tokens-take arg_max (c_string line))
    ∙ cut 19 (words (c_string line))
