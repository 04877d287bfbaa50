-- ===== src/ExecServer/Life.antt =====
-- A job from its arrival at exec_server.c to the line that a client who asks for it is shown.
use distributed_queue_system.Base.{
  ℕ, ◌<◌, length, ◌≡◌, ◌≢◌, refl, sym, ap, ap₂, ◌∙◌, true, false, List, [], ◌∷◌, Option, some, none,
  arith, if◌then◌else◌, inl, inr, subst, Bool-cases,
}
use distributed_queue_system.Transport.{ok}
use distributed_queue_system.History.{JobHistory, lookup_job, set_state}
use distributed_queue_system.Proto.{JobState, state_code, signaled, error}
use distributed_queue_system.Proto.Memory.{Msg}
use distributed_queue_system.Proto.Setters.{set_job_run, set_job_done, set_job_signaled}
use distributed_queue_system.Proto.RoundTrip.{u8_mod, u16_mod}
use distributed_queue_system.Server.{MainServer}
use distributed_queue_system.Server.Reply.{Result, done, Env, Peer}
use distributed_queue_system.Server.Attend.{attend_client, server_request}
use distributed_queue_system.Server.Invariant.{IsSound}
use distributed_queue_system.Client.{job_state_request, job_state, state_line, show}
use distributed_queue_system.Client.EndToEnd.{job_state_held}
use distributed_queue_system.ExecServer.{
  Status, exited, killed, other, Round, returned, job_id_of, father_job_routine, exec_job,
}
use distributed_queue_system.ExecServer.Reports.{
  reported, server_request-Report, set_job_run-Report,
}
use distributed_queue_system.ExecServer.Ends.{
  exit_end, end_of, round_end, LastReport, done-LastReport, signaled-LastReport,
}

-- The server after a report that it takes: it answers nothing, and the connection goes on.
abbrev pub taken : Result → Option MainServer
taken (done [] true s) = some s
taken r = none

-- The server after some reports, each in an environment and with a peer of its own.
unfoldable pub take_reports : (ℕ → Env) → (ℕ → Peer) → List Msg → MainServer → Option MainServer
take_reports e peer [] s = some s
take_reports e peer (m ∷ ms) s =
    elim (taken (server_request (e (length ms)) (peer (length ms)) m s)) [
      | none ↦ none
      | some s' ↦ take_reports e peer ms s'
    ]

some_injective : (p q : JobState × ℕ) → some p ≡ some q → p ≡ q
some_injective p q e = cc

none-some : (p : JobState × ℕ) → none ≢ some p
none-some p e = cc

exec_job-forked :
    (round : Round)
    → round.forked ≡ true
    → exec_job round ≡ father_job_routine round (job_id_of round.pkg)
unfolding exec_job
exec_job-forked round f =
    ap
      (λ b.
        if b
        then father_job_routine round (job_id_of round.pkg)
        else returned (set_job_done round.raw (job_id_of round.pkg) 41 ∷ []) true)
      f

exec_job-failed :
    (round : Round)
    → round.forked ≡ false
    → exec_job round ≡ returned (set_job_done round.raw (job_id_of round.pkg) 41 ∷ []) true
unfolding exec_job
exec_job-failed round f =
    ap
      (λ b.
        if b
        then father_job_routine round (job_id_of round.pkg)
        else returned (set_job_done round.raw (job_id_of round.pkg) 41 ∷ []) true)
      f

set_state-state :
    (state v now : ℕ) (entry : JobHistory)
    → ((set_state state v now entry).state ≡ state)
      × ((set_state state v now entry).exit_status ≡ v)
unfolding set_state
set_state-state state v now entry = ground arith

module _ (e : ℕ → Env) (peer : ℕ → Peer) (e' : Env) (raw : Msg) (jobid : ℕ)
    (h : jobid < u16_mod) where
  -- What holds of a server that has taken the reports on a job.
  pub record Shows (out : List Msg) (s s' : MainServer) (st : JobState) (v : ℕ) : Type 0 where
    pub takes : take_reports e peer out s ≡ some s'
    pub sound : IsSound s'
    pub answer : Msg
    pub served : attend_client e' ok (job_state_request raw jobid) s' ≡ done (answer ∷ []) true s'
    pub shown : show answer ≡ job_state jobid (some (st, some v))
    pub others : (j : ℕ) → j ≢ jobid → lookup_job j s'.history ≡ lookup_job j s.history

  last-Shows :
      (m : Msg) (s : MainServer) (entry : JobHistory) (st : JobState) (v : ℕ)
      → IsSound s
      → lookup_job jobid s.history ≡ some entry
      → LastReport m jobid st v
      → v < u8_mod
      → (s' : MainServer) × Shows (m ∷ []) s s' st v
  unfolding take_reports LastReport
  last-Shows m s entry st v sound l (r, known, small, line) b =
      let state = state_code st in
      let now = (e 0).now in
      let s' = reported jobid state v now s in
      let (a, va, la) = server_request-Report (e 0) (peer 0) m jobid state v s sound known r in
      let (x, y) = set_state-state state v now entry in
      let (answer, t, w) =
        job_state_held e' raw jobid s' (set_state state v now entry) h
          (la jobid ∙ ground (arith, l)) (rw x small) (rw y b) in
      (
        s',
        record {
          takes = ap (λ r. elim (taken r) [ none ↦ none | some s ↦ some s ]) a;
          sound = va;
          answer = answer;
          served = t;
          shown =
              w ∙ (ap₂ (λ a b. job_state jobid (state_line a b)) x y ∙ ap (job_state jobid) line);
          others = λ j n. la j ∙ ground arith;
        },
      )

  two_reports :
      (m : Msg) (s : MainServer) (entry : JobHistory) (st : JobState) (v : ℕ)
      → IsSound s
      → lookup_job jobid s.history ≡ some entry
      → LastReport m jobid st v
      → v < u8_mod
      → (raw : Msg) → (s' : MainServer) × Shows (set_job_run raw jobid ∷ m ∷ []) s s' st v
  unfolding take_reports set_state
  two_reports m s entry st v sound l r b raw =
      let now = (e 1).now in
      let s₁ = reported jobid 1 0 now s in
      let (a, va, la) =
        server_request-Report (e 1) (peer 1) (set_job_run raw jobid) jobid 1 0 s sound refl
          (set_job_run-Report raw jobid h) in
      let (s', t) =
        last-Shows m s₁ (set_state 1 0 now entry) st v va (la jobid ∙ ground (arith, l)) r b in
      (
        s',
        record {
          takes =
              ap (λ r. elim (taken r) [ none ↦ none | some s ↦ take_reports e peer (m ∷ []) s ]) a
              ∙ t.takes;
          sound = t.sound;
          answer = t.answer;
          served = t.served;
          shown = t.shown;
          others = λ j n. t.others j n ∙ (la j ∙ ground arith);
        },
      )

  module _ (round : Round) (s : MainServer) (entry : JobHistory) (sound : IsSound s)
      (i : job_id_of round.pkg ≡ jobid) (l : lookup_job jobid s.history ≡ some entry) where
    by_status :
        (status : Status) (p : JobState × ℕ)
        → round.status ≡ status
        → end_of status ≡ some p
        → p.1 < u8_mod
        → (out : List Msg) × (s' : MainServer) × (father_job_routine round jobid
            ≡ returned out true)
          × Shows out s s' p.0 p.1
    unfolding father_job_routine
    by_status (exited code) p e n b =
        let pair = some_injective (exit_end code, code) p n in
        let k = subst (λ (p : JobState × ℕ). p.1 < u8_mod) (sym pair) b in
        let (s', t) =
          two_reports (set_job_done round.raw jobid code) s entry (exit_end code) code sound l
            (done-LastReport round.raw jobid code h k) k round.raw in
        (
          set_job_run round.raw jobid ∷ set_job_done round.raw jobid code ∷ [],
          s',
          rw e refl,
          subst
              (λ (p : JobState × ℕ).
                Shows (set_job_run round.raw jobid ∷ set_job_done round.raw jobid code ∷ []) s s'
                  p.0 p.1)
              pair t,
        )
    by_status (killed signal) p e n b =
        let pair = some_injective (signaled, signal) p n in
        let k = subst (λ (p : JobState × ℕ). p.1 < u8_mod) (sym pair) b in
        let (s', t) =
          two_reports (set_job_signaled round.raw jobid signal) s entry signaled signal sound l
            (signaled-LastReport round.raw jobid signal h k) k round.raw in
        (
          set_job_run round.raw jobid ∷ set_job_signaled round.raw jobid signal ∷ [],
          s',
          rw e refl,
          subst
              (λ (p : JobState × ℕ).
                Shows (set_job_run round.raw jobid ∷ set_job_signaled round.raw jobid signal ∷ []) s
                  s' p.0 p.1)
              pair t,
        )
    by_status other p e n b = absurd (none-some p n)

    -- exec_server.c is given a job that a sound server's history holds, and the child ends, or fork
    -- fails: the main server takes the reports that are sent, and stays sound; a client who asks
    -- for the job is then shown how it ended, with the exit status or the signal, and for other ids
    -- the history is as it was.
    pub job_end_shown :
        (p : JobState × ℕ)
        → round_end round ≡ some p
        → p.1 < u8_mod
        → (out : List Msg) × (s' : MainServer) × (exec_job round ≡ returned out true)
          × Shows out s s' p.0 p.1
    job_end_shown p n b = elim (Bool-cases round.forked) [
      | inl f ↦
          let (out, s', r, t) = by_status round.status p refl (rw f at n) b in
          (out, s', exec_job-forked round f ∙ (ap (father_job_routine round) i ∙ r), t)
      | inr f ↦
          let (s', t) =
            last-Shows (set_job_done round.raw jobid 41) s entry error 41 sound l
              (done-LastReport round.raw jobid 41 h (omega arith)) (omega arith) in
          (
            set_job_done round.raw jobid 41 ∷ [],
            s',
            exec_job-failed round f ∙ ap (λ j. returned (set_job_done round.raw j 41 ∷ []) true) i,
            subst (λ (p : JobState × ℕ). Shows (set_job_done round.raw jobid 41 ∷ []) s s' p.0 p.1)
                (some_injective (error, 41) p (rw f at n)) t,
          )
    ]
