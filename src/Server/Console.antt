-- ===== src/Server/Console.antt =====
-- The loop of main in main_server.c over the commands on the standard input, with printHistoryJobs
-- and printQueueJobs.
pub mod Printed
pub mod Rounds
mod Tests
use distributed_queue_system.Base.{
  ℕ, zero, suc, ◌+◌, ◌^◌, Bool, true, false, ◌||◌, List, [], ◌∷◌, ◌++◌, Option, none, some, length,
  leb, ltb, ◌==◌, if◌then◌else◌,
}
use distributed_queue_system.Text.{codes, same_text, atoi, scan_word, drop_char, terminated}
use distributed_queue_system.Job.{Job, Heap}
use distributed_queue_system.Queue.{Queue, count}
use distributed_queue_system.History.{JobHistory, History}
use distributed_queue_system.Server.{MainServer, num_queue_max}
use distributed_queue_system.Server.Shutdown.{job_at, history_limit}

-- What printHistoryJobs shows of a record.
pub record HistoryRow : Type 0 where
  pub idx : ℕ
  pub id : ℕ
  pub queue_idx : ℕ
  pub state : ℕ
  pub exit_status : ℕ
  pub submit_time : ℕ
  pub start_proc_time : ℕ
  pub end_proc_time : ℕ

abbrev pub history_row : ℕ → JobHistory → HistoryRow
history_row i job = record {
  idx = i;
  id = job.id;
  queue_idx = job.queue_idx;
  state = job.state;
  exit_status = job.exit_status;
  submit_time = job.submit_time;
  start_proc_time = job.start_proc_time;
  end_proc_time = job.end_proc_time;
}

-- A row in front of others; `none` is a memory fault, in this row or a later one.
abbrev pub row_before {ℓ} : {A : Type ℓ} → Option A → Option (List A) → Option (List A)
row_before none rows = none
row_before (some row) none = none
row_before (some row) (some rows) = some (row ∷ rows)

abbrev pub history_row_at : History → ℕ → Option HistoryRow
history_row_at h i = elim (h.job_array i) [ none ↦ none | some job ↦ some (history_row i job) ]

-- Rounds of the loop from `i` on.
unfoldable pub history_rows : ℕ → ℕ → History → Option (List HistoryRow)
history_rows zero i h = some []
history_rows (suc rounds) i h = row_before (history_row_at h i) (history_rows rounds (i + 1) h)

unfoldable pub print_history_jobs : History → Option (List HistoryRow)
unfolding history_rows
print_history_jobs h = history_rows (history_limit h) 0 h

-- What printQueueJobs shows of a job.
pub record QueueRow : Type 0 where
  pub id : ℕ
  pub file : List ℕ
  pub dir : List ℕ

abbrev pub queue_row : Job → Option QueueRow
queue_row job = elim (terminated job.exec_file) [
  | none ↦ none
  | some file ↦ elim (terminated job.working_dir) [
    | none ↦ none
    | some dir ↦ some (record { id = job.id; file = file; dir = dir })
  ]
]

abbrev pub queue_row_at : Heap → ℕ → Option QueueRow
queue_row_at heap p = elim (heap p) [ none ↦ none | some job ↦ queue_row job ]

unfoldable pub queue_rows : ℕ → ℕ → Queue → Heap → Option (List QueueRow)
queue_rows zero i q heap = some []
queue_rows (suc rounds) i q heap =
    row_before (queue_row_at heap (job_at q i)) (queue_rows rounds (i + 1) q heap)

-- printQueueJobs: the size, and the rows.
unfoldable pub print_queue_jobs : Queue → Heap → ℕ × Option (List QueueRow)
unfolding queue_rows
print_queue_jobs q heap = (count q, queue_rows (count q) 0 q heap)

pub data Command : Type 0 where
  stop t jobs q bad : Command

-- The chain of strcmp.
unfoldable pub command_of : List ℕ → Command
unfolding same_text
command_of w =
    if same_text w (codes "stop")
    then stop
    else if same_text w (codes "t")
    then t
    else if same_text w (codes "jobs")
    then jobs
    else if same_text w (codes "q")
    then q
    else bad

-- What a command shows, or that it fails: a read through a pointer that leads nowhere or past an
-- array's end, or a word that goes past `buff`.
pub data Line : Type 0 where
  total : ℕ → Line
  history_table : List HistoryRow → Line
  queue_table : ℕ → List QueueRow → Line
  bad_command : Line
  fault : Line
  overrun : Line

-- `char buff[256]` holds a word of 255 bytes with its terminator.
abbrev pub buff_size : ℕ
buff_size = 256

abbrev pub history_line : Option (List HistoryRow) → Line
history_line none = fault
history_line (some rows) = history_table rows

abbrev pub queue_line : ℕ × Option (List QueueRow) → Line
queue_line (size, none) = fault
queue_line (size, some rows) = queue_table size rows

-- `cmd < 0 || cmd >= NUM_QUEUE_MAX`, on the 32-bit pattern of `cmd`.
abbrev pub no_queue : ℕ → Bool
no_queue cmd = leb (2 ^ 31) cmd || leb num_queue_max cmd

-- How the loop goes on: with what is left to read, to the end that `stop` makes, or not at all.
pub data Next : Type 0 where
  reads : List ℕ → Next
  stops : List ℕ → Next
  dies : Next

-- The loop goes on after a line, if the program is still there.
abbrev pub goes_on : Line → List ℕ → Next
goes_on fault input = dies
goes_on overrun input = dies
goes_on (total n) input = reads input
goes_on (history_table rows) input = reads input
goes_on (queue_table size rows) input = reads input
goes_on bad_command input = reads input

-- The `q` command, which reads the queue's number as a second word.
unfoldable pub queue_command : MainServer → List ℕ → Line × Next
unfolding print_queue_jobs
queue_command s input =
    let (w, rest) = scan_word input in
    if ltb (length w) buff_size
    then if no_queue (atoi w)
      then (bad_command, reads rest)
      else (let line = queue_line (print_queue_jobs (s.queue (atoi w)) s.heap) in
          (line, goes_on line rest))
    else (overrun, dies)

abbrev pub run_command : Command → MainServer → List ℕ → List Line × Next
run_command stop s input = ([], stops input)
run_command t s input = (total s.history.history_putidx ∷ [], reads input)
run_command jobs s input =
    let line = history_line (print_history_jobs s.history) in (line ∷ [], goes_on line input)
run_command q s input = let (line, next) = queue_command s input in (line ∷ [], next)
run_command bad s input = (bad_command ∷ [], reads input)

-- One round, on the server as the other threads have left it.
unfoldable pub console_round : MainServer → List ℕ → List Line × Next
unfolding queue_command print_history_jobs command_of
console_round s input =
    let (w, rest) = scan_word input in
    if ltb (length w) buff_size
    then run_command (command_of w) s (drop_char rest)
    else (overrun ∷ [], dies)

-- The rounds, each with the server that it finds.
unfoldable pub console : List MainServer → List ℕ → List Line × Next
unfolding console_round
console [] input = ([], reads input)
console (s ∷ servers) input =
    let (lines, next) = console_round s input in
    elim next [
      | reads rest ↦ let (later, last) = console servers rest in (lines ++ later, last)
      | stops rest ↦ (lines, stops rest)
      | dies ↦ (lines, dies)
    ]
