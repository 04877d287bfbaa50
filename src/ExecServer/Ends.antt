-- ===== src/ExecServer/Ends.antt =====
-- How exec_server.c reports the end of a job: the state, the value, and the message that carries
-- them.
use distributed_queue_system.Base.{
  ℕ, ◌<◌, ◌≡◌, refl, true, Option, some, none, arith, ◌==◌, if◌then◌else◌, ◌||◌, subst,
}
use distributed_queue_system.History.{is_known}
use distributed_queue_system.Proto.{JobState, state_code, finished, signaled, error}
use distributed_queue_system.Proto.Memory.{Msg}
use distributed_queue_system.Proto.Setters.{set_job_done, set_job_signaled}
use distributed_queue_system.Proto.RoundTrip.{u8_mod, u16_mod}
use distributed_queue_system.Client.{state_line}
use distributed_queue_system.ExecServer.{Status, exited, killed, other, Round}
use distributed_queue_system.ExecServer.Reports.{
  Report, exit_state, set_job_done-Report, set_job_signaled-Report,
}

-- The state and the value that a job's end is shown with: 40 stands for a program that cannot be
-- run, and 41 for a fork that failed.
abbrev pub exit_end : ℕ → JobState
exit_end code = if code == 40 || code == 41 then error else finished

abbrev pub end_of : Status → Option (JobState × ℕ)
end_of (exited code) = some (exit_end code, code)
end_of (killed signal) = some (signaled, signal)
end_of other = none

abbrev pub round_end : Round → Option (JobState × ℕ)
round_end round = if round.forked then end_of round.status else some (error, 41)

exit_state-exit_end : (code : ℕ) → exit_state code ≡ state_code (exit_end code)
exit_state-exit_end code = ground arith

-- The report that ends a job.
unfoldable pub LastReport : Msg → ℕ → JobState → ℕ → Type 0
LastReport m jobid st v =
    Report m jobid (state_code st) v
    × (is_known (state_code st) ≡ true)
    × (state_code st < u8_mod)
    × (state_line (state_code st) v ≡ some (st, some v))

pub done-LastReport :
    (raw : Msg) (jobid code : ℕ)
    → jobid < u16_mod
    → code < u8_mod
    → LastReport (set_job_done raw jobid code) jobid (exit_end code) code
unfolding LastReport state_line
done-LastReport raw jobid code h k = (
  subst (λ st. Report (set_job_done raw jobid code) jobid st code) (exit_state-exit_end code)
      (set_job_done-Report raw jobid code h k),
  ground arith,
  ground arith,
  ground arith,
)

pub signaled-LastReport :
    (raw : Msg) (jobid signal : ℕ)
    → jobid < u16_mod
    → signal < u8_mod
    → LastReport (set_job_signaled raw jobid signal) jobid signaled signal
unfolding LastReport state_line
signaled-LastReport raw jobid signal h k =
    (set_job_signaled-Report raw jobid signal h k, refl, omega arith, refl)
