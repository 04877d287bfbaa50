-- ===== src/ExecServer/Reports.antt =====
-- What the reports of exec_server.c do in the main server.
use distributed_queue_system.Base.{
  ℕ, ◌<◌, ◌≡◌, ◌≢◌, refl, true, ◌||◌, [], some, arith, ap, ap₂, ◌∙◌, inl, inr, ◌⊎◌, ◌==◌,
  if◌then◌else◌,
}
use mathlib.Core.Option
use distributed_queue_system.History.{
  JobHistory, lookup_job, find_job, write_entry, set_state, is_known,
}
use distributed_queue_system.History.Change.{
  change_state_job_known, set_state-queue_idx, set_state-id, lookup_job-write_entry,
}
use distributed_queue_system.Proto.{
  state_code, run, finished, signaled, error, job_done, job_run, job_sig, type_code,
}
use distributed_queue_system.Proto.Memory.{Msg}
use distributed_queue_system.Proto.Getters.{
  get_type, get_job_state_id, get_job_state_state, get_job_state_exit_value,
}
use distributed_queue_system.Proto.Setters.{set_job_run, set_job_done, set_job_signaled}
use distributed_queue_system.Proto.RoundTrip.{u8_mod, u16_mod, set_job_done_lem}
use distributed_queue_system.Server.{MainServer}
use distributed_queue_system.Server.Reply.{done, Env, Peer}
use distributed_queue_system.Server.Attend.{change_state, report_state, server_request}
use distributed_queue_system.Server.Invariant.{IsSound, write_entry-IsSound}

-- A report as the main server reads it.
pub record Report (m : Msg) (jobid state exit_value : ℕ) : Type 0 where
  pub type_read :
      (get_type m ≡ type_code job_run)
      ⊎ (get_type m ≡ type_code job_done)
      ⊎ (get_type m ≡ type_code job_sig)
  pub id_read : get_job_state_id m ≡ jobid
  pub state_read : get_job_state_state m ≡ state
  pub exit_read : get_job_state_exit_value m ≡ exit_value

-- The state of a job that ended with an exit status: 40 and 41 stand for an error.
abbrev pub exit_state : ℕ → ℕ
exit_state code = if code == 40 || code == 41 then state_code error else state_code finished

pub set_job_run-Report :
    (m : Msg) (jobid : ℕ) → jobid < u16_mod → Report (set_job_run m jobid) jobid (state_code run) 0
unfolding set_job_run
set_job_run-Report m jobid h = record {
  type_read = inl refl;
  id_read = omega arith;
  state_read = refl;
  exit_read = refl;
}

pub set_job_done-Report :
    (m : Msg) (jobid code : ℕ)
    → jobid < u16_mod
    → code < u8_mod
    → Report (set_job_done m jobid code) jobid (exit_state code) code
set_job_done-Report m jobid code h k =
    let (hd, i, x, st) = set_job_done_lem m jobid code h k in
    record { type_read = inr (inl hd.type_read); id_read = i; state_read = st; exit_read = x }

pub set_job_signaled-Report :
    (m : Msg) (jobid signal : ℕ)
    → jobid < u16_mod
    → signal < u8_mod
    → Report (set_job_signaled m jobid signal) jobid (state_code signaled) signal
unfolding set_job_signaled
set_job_signaled-Report m jobid signal h k = record {
  type_read = inr (inr refl);
  id_read = omega arith;
  state_read = omega arith;
  exit_read = omega arith;
}

-- The server with a report stored.
abbrev pub reported : (jobid state exit_value now : ℕ) → MainServer → MainServer
reported jobid state exit_value now s = record s {
  history = write_entry (find_job jobid s.history) (set_state state exit_value now) s.history;
}

-- A report of a known state is stored for its job, with the time, and answered by nothing.
pub server_request-Report :
    (e : Env) (peer : Peer) (m : Msg) (jobid state exit_value : ℕ) (s : MainServer)
    → IsSound s
    → is_known state ≡ true
    → Report m jobid state exit_value
    → (server_request e peer m s ≡ done [] true (reported jobid state exit_value e.now s))
      × IsSound (reported jobid state exit_value e.now s)
      × ((j : ℕ)
          → lookup_job j (reported jobid state exit_value e.now s).history ≡ (
              if j == jobid
              then Option.map (set_state state exit_value e.now) (lookup_job jobid s.history)
              else lookup_job j s.history))
unfolding server_request change_state
server_request-Report e peer m jobid state exit_value s v k r = (
  ground (arith, r.type_read, stored),
  write_entry-IsSound jobid (set_state state exit_value e.now) s
      (set_state-id state exit_value e.now)
      (λ entry h. rw (set_state-queue_idx state exit_value e.now entry) h) v,
  lookup_job-write_entry jobid (set_state state exit_value e.now)
      (set_state-id state exit_value e.now) s.history v.history_valid,
)
  where
    stored : report_state e m s ≡ done [] true (reported jobid state exit_value e.now s)
    stored =
        ap (λ j. change_state e j (get_job_state_state m) (get_job_state_exit_value m) s) r.id_read
        ∙ (ap₂ (λ a b. change_state e jobid a b s) r.state_read r.exit_read
            ∙ ground (
              arith,
              change_state_job_known jobid state exit_value e.now s.history v.history_valid k,
            ))

module _ (e₁ e₂ : Env) (peer₁ peer₂ : Peer) (raw : Msg) (jobid : ℕ) (s : MainServer)
    (entry : JobHistory) (v : IsSound s) (h : jobid < u16_mod)
    (l : lookup_job jobid s.history ≡ some entry) where
  -- For a job that a sound server's history holds, the two reports of exec_server.c on a job
  -- that ran and exited: the main server takes both, and the history then holds the job with
  -- its exit status, as finished or, for 40 and 41, with an error, and with the times of the
  -- two reports; what it finds for other ids is unchanged, and the server stays sound.
  pub reports_exited :
      (code : ℕ)
      → code < u8_mod
      → (s₁ s₂ : MainServer) × (server_request e₁ peer₁ (set_job_run raw jobid) s ≡ done [] true s₁)
        × (server_request e₂ peer₂ (set_job_done raw jobid code) s₁ ≡ done [] true s₂)
        × IsSound s₂
        × (lookup_job jobid s₂.history
            ≡ some (record entry {
              state = exit_state code;
              exit_status = code;
              start_proc_time = e₁.now;
              end_proc_time = e₂.now;
            }))
        × ((j : ℕ) → j ≢ jobid → lookup_job j s₂.history ≡ lookup_job j s.history)
  unfolding set_state
  reports_exited code c =
      let (a, va, la) =
        server_request-Report e₁ peer₁ (set_job_run raw jobid) jobid 1 0 s v refl
          (set_job_run-Report raw jobid h) in
      let (b, vb, lb) =
        server_request-Report e₂ peer₂ (set_job_done raw jobid code) jobid (exit_state code) code
          (reported jobid 1 0 e₁.now s) va (ground arith)
          (set_job_done-Report raw jobid code h c) in
      (
        reported jobid 1 0 e₁.now s,
        reported jobid (exit_state code) code e₂.now (reported jobid 1 0 e₁.now s),
        a,
        b,
        vb,
        lb jobid ∙ ground (arith, la jobid, l),
        λ j n. ground (arith, la j, lb j),
      )

  -- For a job that a sound server's history holds, the two reports of exec_server.c on a job
  -- that ran and that a signal ended: the main server takes both, and the history then holds
  -- the job as signaled, with the signal and the times of the two reports; what it finds for
  -- other ids is unchanged, and the server stays sound.
  pub reports_killed :
      (signal : ℕ)
      → signal < u8_mod
      → (s₁ s₂ : MainServer) × (server_request e₁ peer₁ (set_job_run raw jobid) s ≡ done [] true s₁)
        × (server_request e₂ peer₂ (set_job_signaled raw jobid signal) s₁ ≡ done [] true s₂)
        × IsSound s₂
        × (lookup_job jobid s₂.history
            ≡ some (record entry {
              state = state_code signaled;
              exit_status = signal;
              start_proc_time = e₁.now;
              end_proc_time = e₂.now;
            }))
        × ((j : ℕ) → j ≢ jobid → lookup_job j s₂.history ≡ lookup_job j s.history)
  unfolding set_state
  reports_killed signal c =
      let (a, va, la) =
        server_request-Report e₁ peer₁ (set_job_run raw jobid) jobid 1 0 s v refl
          (set_job_run-Report raw jobid h) in
      let (b, vb, lb) =
        server_request-Report e₂ peer₂ (set_job_signaled raw jobid signal) jobid 4 signal
          (reported jobid 1 0 e₁.now s) va refl (set_job_signaled-Report raw jobid signal h c) in
      (
        reported jobid 1 0 e₁.now s,
        reported jobid 4 signal e₂.now (reported jobid 1 0 e₁.now s),
        a,
        b,
        vb,
        lb jobid ∙ ground (arith, la jobid, l),
        λ j n. ground (arith, la j, lb j),
      )
