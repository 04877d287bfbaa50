-- ===== src/Server/Console/Rounds.antt =====
-- The loop of main in main_server.c, whatever is typed.
use distributed_queue_system.Base.{
  ℕ, ◌<◌, ◌≡◌, ◌≢◌, refl, sym, ap, ◌∙◌, subst, List, [], ◌∷◌, ◌++◌, true, false, arith, All,
  All-append, length, ltb, ◌==◌, if◌then◌else◌, ◌^◌, Bool-cases, inl, inr,
}
use distributed_queue_system.Text.{codes, atoi, is_space, scan_word, drop_char, print_decimal}
use distributed_queue_system.Text.Decimal.{atoi-print_decimal, print_decimal-length}
use distributed_queue_system.Text.Words.{IsWord, scan_word-IsWord, print_decimal-IsWord}
use distributed_queue_system.Server.{MainServer}
use distributed_queue_system.Server.Invariant.{IsSound}
use distributed_queue_system.Server.Console.{
  HistoryRow, QueueRow, print_history_jobs, print_queue_jobs, Command, stop, t, jobs, q, bad,
  command_of, Line, history_table, queue_table, bad_command, fault, overrun, history_line,
  queue_line, no_queue, goes_on, Next, reads, stops, dies, queue_command, run_command,
  console_round, console, buff_size,
}
use distributed_queue_system.Server.Console.Printed.{
  HoldsText, print_history_jobs_lem, print_queue_jobs_lem,
}

-- What the other threads leave for a round.
pub record IsPrintable (s : MainServer) : Type 0 where
  pub sound : IsSound s
  pub texts : HoldsText s.heap

no_queue_lem : (cmd : ℕ) → no_queue cmd ≡ false → cmd ≡ 0
no_queue_lem cmd e = ground (arith, e)

history_line-IsPrintable :
    (s : MainServer) → IsPrintable s → history_line (print_history_jobs s.history) ≢ fault
history_line-IsPrintable s v e =
    let (rows, r, n, g) = print_history_jobs_lem s.history v.sound.history_valid in
    table (sym (ap history_line r) ∙ e)
  where
    table : {rows : List HistoryRow} → history_table rows ≢ fault
    table k = cc

queue_line-IsPrintable :
    (s : MainServer)
    → IsPrintable s
    → (cmd : ℕ) → cmd ≡ 0
    → queue_line (print_queue_jobs (s.queue cmd) s.heap) ≢ fault
queue_line-IsPrintable s v cmd z e =
    let (rows, r, m) = print_queue_jobs_lem s v.sound v.texts in
    table (
      sym (ap queue_line r)
      ∙ subst (λ c. queue_line (print_queue_jobs (s.queue c) s.heap) ≡ fault) z e)
  where
    table : {size : ℕ} {rows : List QueueRow} → queue_table size rows ≢ fault
    table k = cc

bad_command_apart : bad_command ≢ fault
bad_command_apart e = cc

overrun_apart : overrun ≢ fault
overrun_apart e = cc

queue_command-IsPrintable :
    (s : MainServer) (input : List ℕ) → IsPrintable s → (queue_command s input).0 ≢ fault
unfolding queue_command
queue_command-IsPrintable s input v =
    let w = (scan_word input).0 in
    elim (Bool-cases (ltb (length w) buff_size)) [
      | inl e ↦ elim (Bool-cases (no_queue (atoi w))) [
        | inl n ↦ rw (e, n) bad_command_apart
        | inr n ↦ rw (e, n) (queue_line-IsPrintable s v (atoi w) (no_queue_lem (atoi w) n))
      ]
      | inr e ↦ rw e overrun_apart
    ]

run_command-IsPrintable :
    (c : Command) (s : MainServer) (input : List ℕ)
    → IsPrintable s
    → All (λ line. line ≢ fault) (run_command c s input).0
run_command-IsPrintable stop s input v = tt
run_command-IsPrintable t s input v = ((λ e. cc), tt)
run_command-IsPrintable jobs s input v = (history_line-IsPrintable s v, tt)
run_command-IsPrintable q s input v = (queue_command-IsPrintable s input v, tt)
run_command-IsPrintable bad s input v = ((λ e. cc), tt)

console_round-IsPrintable :
    (s : MainServer) (input : List ℕ)
    → IsPrintable s
    → All (λ line. line ≢ fault) (console_round s input).0
unfolding console_round
console_round-IsPrintable s input v =
    let (w, rest) = scan_word input in
    elim (Bool-cases (ltb (length w) buff_size)) [
      | inl e ↦ rw e (run_command-IsPrintable (command_of w) s (drop_char rest) v)
      | inr e ↦ rw e (overrun_apart, tt)
    ]

-- Whatever is typed at the main server's console, and whatever the other threads do to the server
-- between two commands, if they leave it sound and the texts of its jobs within their arrays:
-- no command reads through a pointer that leads nowhere or past a text's array.
pub console-IsPrintable :
    (servers : List MainServer) (input : List ℕ)
    → All IsPrintable servers
    → All (λ line. line ≢ fault) (console servers input).0
unfolding console
console-IsPrintable [] input v = tt
console-IsPrintable (s ∷ servers) input (v, vs) =
    go (console_round s input) (console_round-IsPrintable s input v)
      (λ rest. console-IsPrintable servers rest vs)
  where
    go :
        (r : List Line × Next)
        → All (λ line. line ≢ fault) r.0
        → ((rest : List ℕ) → All (λ line. line ≢ fault) (console servers rest).0)
        → All
            (λ line. line ≢ fault)
            (elim r.1 as (λ n. List Line × Next) [
              | reads rest ↦ (r.0 ++ (console servers rest).0, (console servers rest).1)
              | stops rest ↦ (r.0, stops rest)
              | dies ↦ (r.0, dies)
            ]).0
    go (lines, reads rest) a f =
        All-append (λ line. line ≢ fault) lines (console servers rest).0 a (f rest)
    go (lines, stops rest) a f = a
    go (lines, dies) a f = a

goes_on-queue_line :
    (s : MainServer) (input : List ℕ)
    → IsPrintable s
    → goes_on (queue_line (print_queue_jobs (s.queue 0) s.heap)) input ≡ reads input
goes_on-queue_line s input v =
    let (rows, r, m) = print_queue_jobs_lem s v.sound v.texts in
    ap (λ p. goes_on (queue_line p) input) r

queue_command-print_decimal :
    (s : MainServer) (n : ℕ) (rest : List ℕ)
    → IsPrintable s
    → n < 2 ^ 31
    → queue_command s (print_decimal n ++ 10 ∷ rest) ≡ (
      if n == 0 then queue_line (print_queue_jobs (s.queue 0) s.heap) else bad_command,
      reads (10 ∷ rest),
    )
unfolding queue_command
queue_command-print_decimal s n rest v h = ground (
  arith,
  scan_word-IsWord (print_decimal n) 10 rest (print_decimal-IsWord n) refl,
  print_decimal-length n,
  atoi-print_decimal n h,
  goes_on-queue_line s (10 ∷ rest) v,
)

console_round-IsWord :
    (s : MainServer) (w : List ℕ) (c : ℕ) (rest : List ℕ)
    → IsWord w
    → is_space c ≡ true
    → length w < buff_size
    → console_round s (w ++ c ∷ rest) ≡ run_command (command_of w) s rest
unfolding console_round
console_round-IsWord s w c rest v h lt = ground (arith, scan_word-IsWord w c rest v h)

q-IsWord : IsWord (codes "q")
q-IsWord = record { some_byte = λ e. cc; no_space = ground arith }

-- `q` with a number, as it is printed: for 0 the queue's table is shown, and for every other
-- number below 2 ^ 31 the command is refused; the loop goes on in both cases, if the server is
-- sound and the texts of its jobs end within their arrays.
pub console_round_queue :
    (s : MainServer) (n : ℕ) (rest : List ℕ)
    → IsPrintable s
    → n < 2 ^ 31
    → console_round s (codes "q" ++ 32 ∷ (print_decimal n ++ 10 ∷ rest)) ≡ (
      (if n == 0 then queue_line (print_queue_jobs (s.queue 0) s.heap) else bad_command) ∷ [],
      reads (10 ∷ rest),
    )
unfolding command_of
console_round_queue s n rest v h =
    console_round-IsWord s (codes "q") 32 (print_decimal n ++ 10 ∷ rest) q-IsWord refl (omega arith)
    ∙ ap (λ (x : Line × Next). (x.0 ∷ [], x.1)) (queue_command-print_decimal s n rest v h)
