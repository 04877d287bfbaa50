-- ===== src/Client/Commands.antt =====
-- main of client.c: the loop over the commands on the standard input, with the parts of
-- getArgsSubmit and getArgsSubmitInt that read it.
use distributed_queue_system.Base.{
  ℕ, Bool, true, false, List, [], ◌∷◌, ◌++◌, Option, none, some, length, ltb, if◌then◌else◌,
}
use distributed_queue_system.Text.{codes, same_text, atoi, scan_word, drop_char, get_line}
use distributed_queue_system.Proto.Memory.{Msg}
use distributed_queue_system.Proto.Setters.{set_closed_connection}
use distributed_queue_system.Transport.{Ret}
use distributed_queue_system.Client.Interaction.{Pass, Copied, client_accept}
use distributed_queue_system.Client.{
  get_args_submit, get_args_submit_int, job_state_request, queue_state_request, unsubmit_request,
  Shown, client_protocol,
}

-- The commands that the loop knows, and what it does with any other word.
pub data Command : Type 0 where
  submit submiti statejob statequeue unsubmit stop bad : Command

-- The chain of strcmp.
unfoldable pub command_of : List ℕ → Command
unfolding same_text
command_of w =
    if same_text w (codes "submit")
    then submit
    else if same_text w (codes "submiti")
    then submiti
    else if same_text w (codes "statejob")
    then statejob
    else if same_text w (codes "statequeue")
    then statequeue
    else if same_text w (codes "unsubmit")
    then unsubmit
    else if same_text w (codes "stop")
    then stop
    else bad

-- What the program does to the outside: it hands a message to sendMsg, shows an answer, waits in
-- client_accept, complains, or writes past `buffer`.
pub data Action : Type 0 where
  sends : Msg → Action
  shows : Shown → Action
  accepts : Option Copied → Action
  bad_command : Action
  overrun : Action

-- What the outside gives in one round: the answer that recvMsg leaves, with what it returns; the
-- directory, where getcwd gives one; and for an interactive job whether `socket` makes one, the
-- address that ioctl leaves and the port that getsockname gives for it, and the rounds of the
-- connection, where accept gives one.
pub record Turn : Type 0 where
  pub received : Ret
  pub answer : Msg
  pub cwd : Option (List ℕ)
  pub addr : ℕ
  pub port : ℕ
  pub makes_socket : Bool
  pub caller : Option (List Pass)

-- The program between two rounds: the input that is left, in which no byte is 0, and the memory of
-- its message.
pub record Client : Type 0 where
  pub input : List ℕ
  pub pkg : Msg

-- What a round does, the client after it, and whether the loop goes on.
abbrev pub Outcome : Type 0
Outcome = List Action × Client × Bool

-- `char buffer[256]` holds a word of 255 bytes with its terminator.
abbrev pub buffer_size : ℕ
buffer_size = 256

abbrev pub answered : Turn → Action
answered turn = shows (client_protocol turn.received turn.answer)

-- getArgsSubmit: without a line or a directory it sends nothing, and client_protocol waits all the
-- same.
unfoldable pub submit_command : Turn → Client → Outcome
submit_command turn c = elim (get_line c.input) [
  | none ↦ (answered turn ∷ [], c, true)
  | some (line, rest) ↦ elim turn.cwd [
    | none ↦ (answered turn ∷ [], record c { input = rest }, true)
    | some dir ↦
        let pkg = get_args_submit c.pkg line dir in
        (sends pkg ∷ answered turn ∷ [], record { input = rest; pkg = pkg }, true)
  ]
]

-- What accept gives on the socket of getArgsSubmitInt, which is -1 where `socket` failed.
abbrev pub new_socket : Turn → Option (List Pass)
new_socket turn = if turn.makes_socket then turn.caller else none

-- getArgsSubmitInt, and client_accept on the socket that it returns, or on -1.
unfoldable pub submiti_command : Turn → Client → Outcome
submiti_command turn c = elim (get_line c.input) [
  | none ↦ (answered turn ∷ accepts (client_accept none) ∷ [], c, true)
  | some (line, rest) ↦ elim turn.cwd [
    | none ↦ (answered turn ∷ accepts (client_accept none) ∷ [], record c { input = rest }, true)
    | some dir ↦
        let pkg = get_args_submit_int c.pkg line dir turn.addr turn.port in
        (
          sends pkg ∷ answered turn ∷ accepts (client_accept (new_socket turn)) ∷ [],
          record { input = rest; pkg = pkg },
          true,
        )
  ]
]

-- The commands that take a number, which is read as a second word.
unfoldable pub number_command : (Msg → ℕ → Msg) → Turn → Client → Outcome
number_command request turn c =
    let (w, rest) = scan_word c.input in
    let pkg = request c.pkg (atoi w) in
    if ltb (length w) buffer_size
    then (sends pkg ∷ answered turn ∷ [], record { input = drop_char rest; pkg = pkg }, true)
    else (overrun ∷ [], c, false)

unfoldable pub stop_command : Client → Outcome
stop_command c =
    let pkg = set_closed_connection c.pkg in (sends pkg ∷ [], record c { pkg = pkg }, false)

unfoldable pub run_command : Command → Turn → Client → Outcome
run_command submit turn c = submit_command turn c
run_command submiti turn c = submiti_command turn c
run_command statejob turn c = number_command job_state_request turn c
run_command statequeue turn c = number_command queue_state_request turn c
run_command unsubmit turn c = number_command unsubmit_request turn c
run_command stop turn c = stop_command c
run_command bad turn c = (bad_command ∷ [], c, true)

-- One round of the loop.
unfoldable pub client_round : Turn → Client → Outcome
unfolding run_command
client_round turn c =
    let (w, rest) = scan_word c.input in
    if ltb (length w) buffer_size
    then run_command (command_of w) turn (record c { input = drop_char rest })
    else (overrun ∷ [], c, false)

-- The rounds that the outside gives, up to the one that ends the loop: what they do, the client
-- after them, and whether the loop would go on.
unfoldable pub client_main : List Turn → Client → Outcome
client_main [] c = ([], c, true)
client_main (turn ∷ turns) c =
    let (out, c', more) = client_round turn c in
    elim more [
      | true ↦ let (later, c'', m) = client_main turns c' in (out ++ later, c'', m)
      | false ↦ (out, c', false)
    ]
