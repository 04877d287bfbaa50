-- ===== src/ExecServer/Main.antt =====
-- main of exec_server.c: the loop over the commands on the standard input.
use distributed_queue_system.Base.{
  ℕ, ◌+◌, ◌≡◌, ◌<◌, refl, ◌∙◌, true, false, List, [], ◌∷◌, ◌++◌, map, arith, length, ltb,
  if◌then◌else◌,
}
use mathlib.Core.List.{append_assoc}
use distributed_queue_system.Text.{codes, same_text, is_space, scan_word, drop_char}
use distributed_queue_system.Text.Words.{IsWord, scan_word-IsWord}
use distributed_queue_system.Proto.Memory.{Msg}
use distributed_queue_system.Proto.Setters.{set_closed_connection_exec_server}
use distributed_queue_system.Transport.{Ret}
use distributed_queue_system.ExecServer.{
  Round, Served, returned, blocked, aborted, job_request, close_connec_main,
}

pub data Command : Type 0 where
  job stop bad : Command

-- The chain of strcmp.
unfoldable pub command_of : List ℕ → Command
unfolding same_text
command_of w =
    if same_text w (codes "job") then job else if same_text w (codes "stop") then stop else bad

-- What a command meets: the memory of the request, what sendMsg makes of it, and the rounds of
-- exec_server_protocol.
pub record Turn : Type 0 where
  pub raw : Msg
  pub sent : Ret
  pub rounds : List Round

-- How the loop stands: it ended and the socket was closed, it would go on, it waits for a message, an
-- assertion failed, or a word went past `buffer`.
pub data Standing : Type 0 where
  closed_socket going waiting aborting overrun : Standing

-- The messages that were sent, the commands that were not known, and the input that is left.
pub record Outcome : Type 0 where
  pub sent : List Msg
  pub bad_commands : ℕ
  pub input : List ℕ
  pub standing : Standing

-- `char buffer[256]` holds a word of 255 bytes with its terminator.
abbrev pub buffer_size : ℕ
buffer_size = 256

unfoldable pub run_command : Command → Turn → Served
unfolding job_request close_connec_main
run_command job turn = job_request turn.raw turn.sent turn.rounds
run_command stop turn = close_connec_main turn.raw
run_command bad turn = returned [] true

abbrev pub ended : List Msg → List ℕ → Standing → Outcome
ended sent input standing = record {
  sent = sent;
  bad_commands = 0;
  input = input;
  standing = standing;
}

-- One command's effect on what comes later.
abbrev pub go_on : Served → (input : List ℕ) → (bads : ℕ) → (later : Outcome) → Outcome
go_on (returned out true) input bads later = record later {
  sent = out ++ later.sent;
  bad_commands = bads + later.bad_commands;
}
go_on (returned out false) input bads later = ended out input closed_socket
go_on (blocked out) input bads later = ended out input waiting
go_on (aborted out) input bads later = ended out input aborting

abbrev pub bad_count : Command → ℕ
bad_count job = 0
bad_count stop = 0
bad_count bad = 1

-- The loop, for the turns that the outside gives.
unfoldable pub exec_main : List Turn → (input : List ℕ) → Outcome
unfolding command_of run_command
exec_main [] input = ended [] input going
exec_main (turn ∷ turns) input =
    let (w, rest) = scan_word input in
    let later = exec_main turns (drop_char rest) in
    if ltb (length w) buffer_size
    then go_on (run_command (command_of w) turn) (drop_char rest) (bad_count (command_of w)) later
    else ended [] input overrun

exec_main-IsWord :
    (turn : Turn) (turns : List Turn) (w : List ℕ) (c : ℕ) (rest : List ℕ)
    → IsWord w
    → is_space c ≡ true
    → length w < buffer_size
    → exec_main (turn ∷ turns) (w ++ c ∷ rest)
      ≡ go_on
          (run_command (command_of w) turn)
          rest
          (bad_count (command_of w))
          (exec_main turns rest)
unfolding exec_main
exec_main-IsWord turn turns w c rest v h lt = ground (arith, scan_word-IsWord w c rest v h)

job-IsWord : IsWord (codes "job")
job-IsWord = record { some_byte = λ e. cc; no_space = ground arith }

stop-IsWord : IsWord (codes "stop")
stop-IsWord = record { some_byte = λ e. cc; no_space = ground arith }

-- A turn whose job is asked for, and served to the end with some messages.
pub record Shift : Type 0 where
  pub turn : Turn
  pub out : List Msg
  pub serves : job_request turn.raw turn.sent turn.rounds ≡ returned out true

-- What is typed for some jobs, and then `stop`.
unfoldable pub typed_jobs : List Shift → (rest : List ℕ) → List ℕ
typed_jobs [] rest = codes "stop" ++ 10 ∷ rest
typed_jobs (shift ∷ shifts) rest = codes "job" ++ 10 ∷ typed_jobs shifts rest

unfoldable pub sent_by : List Shift → List Msg
sent_by [] = []
sent_by (shift ∷ shifts) = shift.out ++ sent_by shifts

-- `job` as often as one likes and then `stop`, where each job is served to its end: the messages
-- are those of the jobs, in order, and then the one that closes the connection; the socket is
-- closed, and what was typed behind `stop` is not read.
pub exec_main_session :
    (shifts : List Shift) (last : Turn) (later : List Turn) (rest : List ℕ)
    → exec_main (map (λ shift. shift.turn) shifts ++ last ∷ later) (typed_jobs shifts rest)
      ≡ record {
        sent = sent_by shifts ++ set_closed_connection_exec_server last.raw ∷ [];
        bad_commands = 0;
        input = rest;
        standing = closed_socket;
      }
unfolding typed_jobs sent_by run_command command_of
exec_main_session [] last later rest =
    exec_main-IsWord last later (codes "stop") 10 rest stop-IsWord refl (omega arith) ∙ refl
exec_main_session (shift ∷ shifts) last later rest =
    exec_main-IsWord shift.turn (map (λ shift. shift.turn) shifts ++ last ∷ later) (codes "job") 10
      (typed_jobs shifts rest) job-IsWord refl (omega arith)
    ∙ ground (
      arith,
      shift.serves,
      append_assoc shift.out (sent_by shifts) (set_closed_connection_exec_server last.raw ∷ []),
      exec_main_session shifts last later rest,
    )

-- At the end of the input every round finds a bad command, and the loop goes on for ever.
pub exec_main_spins :
    (turns : List Turn)
    → exec_main turns []
      ≡ record { sent = []; bad_commands = length turns; input = []; standing = going }
unfolding exec_main run_command command_of scan_word
exec_main_spins [] = refl
exec_main_spins (turn ∷ turns) = ground (arith, exec_main_spins turns)
