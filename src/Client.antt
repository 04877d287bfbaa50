-- ===== src/Client.antt =====
-- client.c: the requests, and what client_protocol shows of an answer.
pub mod EndToEnd
pub mod Described
pub mod Withdrawal
pub mod Commands
pub mod Rounds
pub mod Session
pub mod Interaction
mod Tests
use distributed_queue_system.Base.{ℕ, ◌%◌, ◌^◌, List, Option, none, some, ◌==◌, if◌then◌else◌}
use distributed_queue_system.Transport.{Ret, ok, closed, failed}
use distributed_queue_system.Proto.{
  type_code, sub_resp, jobstate_resp, questate_resp, unsub_resp, bad_params, JobState, state_code,
  wait, run, finished, unsubmited, signaled, error,
}
use distributed_queue_system.Queue.{QueueState, avail, full, queue_state_code}
use distributed_queue_system.Proto.Memory.{Msg}
use distributed_queue_system.Proto.Getters.{
  get_type, get_job_id, get_job_state_id, get_job_state_state, get_job_state_exit_value,
  get_queue_state_id, get_queue_state_state,
}
use distributed_queue_system.Proto.Setters.{
  set_file_exec_no_inter_client, set_file_exec_inter_client, set_job_state_client,
  set_queue_state_client, set_unsubmit_client,
}

-- The messages of getArgsSubmit and getArgsSubmitInt, for a line of input and a working directory.
unfoldable pub get_args_submit : Msg → (line dir : List ℕ) → Msg
get_args_submit pkg line dir = set_file_exec_no_inter_client pkg line dir 0

unfoldable pub get_args_submit_int : Msg → (line dir : List ℕ) → (addr port : ℕ) → Msg
get_args_submit_int pkg line dir addr port = set_file_exec_inter_client pkg line dir addr port 0

-- The messages of JobState, QueueState and unsubmit; `n` is the 32-bit pattern that atoi returns.
unfoldable pub job_state_request : Msg → ℕ → Msg
job_state_request pkg n = set_job_state_client pkg (n % 2 ^ 16)

unfoldable pub queue_state_request : Msg → ℕ → Msg
queue_state_request pkg n = set_queue_state_client pkg (n % 2 ^ 8)

unfoldable pub unsubmit_request : Msg → ℕ → Msg
unsubmit_request pkg n = set_unsubmit_client pkg (n % 2 ^ 16)

-- The line of jobStateResponse's switch: the state's name, with the exit status for a job that has
-- ended; nothing for a value that it does not know.
unfoldable pub state_line : (state exit_value : ℕ) → Option (JobState × Option ℕ)
state_line state exit_value =
    if state == state_code wait
    then some (wait, none)
    else if state == state_code run
    then some (run, none)
    else if state == state_code finished
    then some (finished, some exit_value)
    else if state == state_code unsubmited
    then some (unsubmited, none)
    else if state == state_code signaled
    then some (signaled, some exit_value)
    else if state == state_code error
    then some (error, some exit_value)
    else none

-- The same for queueStateResponse.
unfoldable pub queue_state_line : ℕ → Option QueueState
queue_state_line state =
    if state == queue_state_code avail
    then some avail
    else if state == queue_state_code full
    then some full
    else none

-- What is shown on the terminal.
pub data Shown : Type 0 where
  job_submitted : (jobid : ℕ) → Shown
  job_state : (jobid : ℕ) → Option (JobState × Option ℕ) → Shown
  queue_state : (queueid : ℕ) → Option QueueState → Shown
  job_unsubmited : (jobid : ℕ) → Shown
  bad_parameters : Shown
  bad_type : Shown
  socket_closed : Shown
  receive_error : Shown

-- The switch of client_protocol, with the functions that show an answer.
unfoldable pub show : Msg → Shown
show pkg =
    let type = get_type pkg in
    if type == type_code sub_resp
    then job_submitted (get_job_id pkg)
    else if type == type_code jobstate_resp
    then job_state (get_job_state_id pkg)
        (state_line (get_job_state_state pkg) (get_job_state_exit_value pkg))
    else if type == type_code questate_resp
    then queue_state (get_queue_state_id pkg) (queue_state_line (get_queue_state_state pkg))
    else if type == type_code unsub_resp
    then job_unsubmited (get_job_id pkg)
    else if type == type_code bad_params
    then bad_parameters
    else bad_type

-- client_protocol, with what recvMsg returned and left in the message.
unfoldable pub client_protocol : Ret → Msg → Shown
unfolding show
client_protocol ok pkg = show pkg
client_protocol closed pkg = socket_closed
client_protocol failed pkg = receive_error
