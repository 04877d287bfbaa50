-- ===== src/Client/Rounds.antt =====
-- What one round of main of client.c does with a command that is there in full.
use distributed_queue_system.Base.{
  ℕ, ◌^◌, ◌<◌, ◌≡◌, refl, ap, ◌∙◌, true, false, List, [], ◌∷◌, ◌++◌, map, some, arith, length, ◌==◌,
  All,
}
use distributed_queue_system.Text.{codes, is_space, scan_word, print_decimal}
use distributed_queue_system.Text.Decimal.{atoi-print_decimal, print_decimal-length}
use distributed_queue_system.Text.Words.{
  IsWord, scan_word-IsWord, get_line-append, print_decimal-IsWord,
}
use distributed_queue_system.Proto.Memory.{Msg}
use distributed_queue_system.Client.{get_args_submit, get_args_submit_int, job_state_request}
use distributed_queue_system.Client.Interaction.{
  Pass, from_job, returned, client_accept, IsWhole, job_bytes, terminal_bytes, interaction_copies,
}
use distributed_queue_system.Client.Commands.{
  accepts, submiti_command, command_of, sends, Turn, answered, buffer_size, bad_command,
  submit_command, number_command, run_command, client_round, client_main,
}

-- A word with a space behind it that fits the buffer is taken as a command.
pub client_round-IsWord :
    (turn : Turn) (w : List ℕ) (c : ℕ) (rest : List ℕ) (pkg : Msg)
    → IsWord w
    → is_space c ≡ true
    → length w < buffer_size
    → client_round turn (record { input = w ++ c ∷ rest; pkg = pkg })
      ≡ run_command (command_of w) turn (record { input = rest; pkg = pkg })
unfolding client_round
client_round-IsWord turn w c rest pkg v h lt = ground (arith, scan_word-IsWord w c rest v h)

submit-IsWord : IsWord (codes "submit")
submit-IsWord = record { some_byte = λ e. cc; no_space = ground arith }

statejob-IsWord : IsWord (codes "statejob")
statejob-IsWord = record { some_byte = λ e. cc; no_space = ground arith }

-- `submit`, and a line.
pub client_round-submit :
    (turn : Turn) (line dir rest : List ℕ) (pkg : Msg)
    → All (λ c. (c == 10) ≡ false) line
    → turn.cwd ≡ some dir
    → client_round turn (record { input = codes "submit" ++ 10 ∷ (line ++ 10 ∷ rest); pkg = pkg })
      ≡ (
        sends (get_args_submit pkg (line ++ 10 ∷ []) dir) ∷ answered turn ∷ [],
        record { input = rest; pkg = get_args_submit pkg (line ++ 10 ∷ []) dir },
        true,
      )
unfolding run_command submit_command command_of
client_round-submit turn line dir rest pkg a d =
    client_round-IsWord turn (codes "submit") 10 (line ++ 10 ∷ rest) pkg submit-IsWord refl
      (omega arith)
    ∙ ground (arith, get_line-append line rest a, d)

submiti-IsWord : IsWord (codes "submiti")
submiti-IsWord = record { some_byte = λ e. cc; no_space = ground arith }

-- `submiti` with a line, in a directory, where a socket is made, the execution server calls, and
-- every read and write of the interaction is whole until the job's connection ends: the client
-- sends the job with the address and the port of its socket, shows the answer, and then copies all
-- that the job writes to the terminal and all that is typed to the job, in order.
pub client_round-submiti :
    (turn : Turn) (line dir rest : List ℕ) (pkg : Msg) (passes later : List Pass) (n : ℕ)
    → All (λ c. (c == 10) ≡ false) line
    → turn.cwd ≡ some dir
    → turn.makes_socket ≡ true
    → turn.caller ≡ some (passes ++ from_job [] n ∷ later)
    → All IsWhole passes
    → client_round turn (record { input = codes "submiti" ++ 10 ∷ (line ++ 10 ∷ rest); pkg = pkg })
      ≡ (
        sends (get_args_submit_int pkg (line ++ 10 ∷ []) dir turn.addr turn.port)
            ∷ answered turn
            ∷ accepts (
                some (record {
                  to_terminal = job_bytes passes;
                  to_job = terminal_bytes passes;
                  standing = returned;
                }))
            ∷ [],
        record {
          input = rest;
          pkg = get_args_submit_int pkg (line ++ 10 ∷ []) dir turn.addr turn.port;
        },
        true,
      )
unfolding run_command submiti_command command_of client_accept
client_round-submiti turn line dir rest pkg passes later n a d m c w =
    client_round-IsWord turn (codes "submiti") 10 (line ++ 10 ∷ rest) pkg submiti-IsWord refl
      (omega arith)
    ∙ ground (arith, get_line-append line rest a, d, m, c, interaction_copies passes later n w)

-- A command with a number, as it is printed.
pub number_command-print_decimal :
    (request : Msg → ℕ → Msg) (turn : Turn) (n : ℕ) (rest : List ℕ) (pkg : Msg)
    → n < 2 ^ 31
    → number_command request turn (record { input = print_decimal n ++ 10 ∷ rest; pkg = pkg }) ≡ (
      sends (request pkg n) ∷ answered turn ∷ [],
      record { input = rest; pkg = request pkg n },
      true,
    )
unfolding number_command
number_command-print_decimal request turn n rest pkg h = ground (
  arith,
  scan_word-IsWord (print_decimal n) 10 rest (print_decimal-IsWord n) refl,
  print_decimal-length n,
  ap (request pkg) (atoi-print_decimal n h),
)

-- `statejob`, and the number.
pub client_round-statejob :
    (turn : Turn) (n : ℕ) (rest : List ℕ) (pkg : Msg)
    → n < 2 ^ 31
    → client_round turn
        (record { input = codes "statejob" ++ 32 ∷ (print_decimal n ++ 10 ∷ rest); pkg = pkg })
      ≡ (
        sends (job_state_request pkg n) ∷ answered turn ∷ [],
        record { input = rest; pkg = job_state_request pkg n },
        true,
      )
unfolding run_command command_of
client_round-statejob turn n rest pkg h =
    client_round-IsWord turn (codes "statejob") 32 (print_decimal n ++ 10 ∷ rest) pkg
      statejob-IsWord refl (omega arith)
    ∙ number_command-print_decimal job_state_request turn n rest pkg h

-- At the end of the input every round finds a bad command, and the loop goes on for ever.
pub client_main_spins :
    (turns : List Turn) (pkg : Msg)
    → client_main turns (record { input = []; pkg = pkg })
      ≡ (map (λ turn. bad_command) turns, record { input = []; pkg = pkg }, true)
unfolding client_main client_round run_command command_of scan_word
client_main_spins [] pkg = refl
client_main_spins (turn ∷ turns) pkg = ground (arith, client_main_spins turns pkg)
