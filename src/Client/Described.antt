-- ===== src/Client/Described.antt =====
-- jobState of main_server.c and jobStateResponse of client.c against the states of the protocol.
use distributed_queue_system.Base.{
  ℕ, ◌%◌, ◌^◌, ◌<◌, ◌≡◌, refl, true, List, [], ◌∷◌, Option, none, some, arith, ap, ◌∙◌, ◌==◌,
  if◌then◌else◌,
}
use distributed_queue_system.Transport.{ok}
use distributed_queue_system.History.{JobHistory, lookup_job}
use distributed_queue_system.Proto.{
  JobState, state_code, wait, run, finished, unsubmited, signaled, error,
}
use distributed_queue_system.Proto.Memory.{Msg}
use distributed_queue_system.Proto.RoundTrip.{u8_mod}
use distributed_queue_system.Server.{MainServer}
use distributed_queue_system.Server.Reply.{done, Env}
use distributed_queue_system.Server.Attend.{attend_client}
use distributed_queue_system.Client.{
  job_state_request, Shown, job_state, bad_parameters, state_line, show,
}
use distributed_queue_system.Client.EndToEnd.{shown_entry, job_state_answered}

-- The states of the protocol, and the one with a code.
abbrev every_state : List JobState
every_state = wait ∷ run ∷ finished ∷ unsubmited ∷ signaled ∷ error ∷ []

abbrev state_with : List JobState → ℕ → Option JobState
state_with [] code = none
state_with (state ∷ states) code =
    if state_code state == code then some state else state_with states code

-- What a job's end leaves: nothing for one that has not run to its end.
abbrev exit_of : JobState → ℕ → Option ℕ
exit_of wait value = none
exit_of run value = none
exit_of unsubmited value = none
exit_of finished value = some value
exit_of signaled value = some value
exit_of error value = some value

abbrev with_exit : ℕ → Option JobState → Option (JobState × Option ℕ)
with_exit value none = none
with_exit value (some state) = some (state, exit_of state value)

-- What a client should be told of an entry.
abbrev pub described : ℕ → Option JobHistory → Shown
described jobid none = bad_parameters
described jobid (some entry) =
    job_state jobid (with_exit entry.exit_status (state_with every_state entry.state))

state_line-described :
    (state value : ℕ) → state_line state value ≡ with_exit value (state_with every_state state)
unfolding state_line
state_line-described state value = ground arith

shown_entry-described :
    (jobid : ℕ) (found : Option JobHistory) → shown_entry jobid found ≡ described jobid found
unfolding shown_entry
shown_entry-described jobid none = refl
shown_entry-described jobid (some entry) =
    ap (job_state jobid) (state_line-described entry.state entry.exit_status)

-- Asked for a job, its id cut to 16 bits, the client shows the id with the state whose code the
-- history holds and, for a job that finished, was ended by a signal or could not be run, with the
-- exit status that it holds, if both fit a byte; without a status for a job that waits, runs or was
-- unsubmitted; and that the parameters are bad if the history holds no such job. The server is
-- unchanged.
pub job_state_end_to_end :
    (e : Env) (raw : Msg) (n : ℕ) (s : MainServer)
    → ((entry : JobHistory)
        → lookup_job (n % 2 ^ 16) s.history ≡ some entry
        → (entry.state < u8_mod) × (entry.exit_status < u8_mod))
    → (answer : Msg) × (attend_client e ok (job_state_request raw n) s ≡ done (answer ∷ []) true s)
      × (show answer ≡ described (n % 2 ^ 16) (lookup_job (n % 2 ^ 16) s.history))
job_state_end_to_end e raw n s b =
    let (answer, r, w) = job_state_answered e raw n s b in
    (answer, r, w ∙ shown_entry-described (n % 2 ^ 16) (lookup_job (n % 2 ^ 16) s.history))
