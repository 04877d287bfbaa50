-- ===== src/Server/Dispatch/Turned.antt =====
-- sendJob with an execution server that does not pass the check, and a queue that holds one job.
use distributed_queue_system.Base.{
  ℕ, ◌+◌, ◌<◌, ◌≡◌, ◌≢◌, refl, false, List, [], ◌∷◌, ◌++◌, some, arith, ap, sym, ◌∙◌, length,
}
use distributed_queue_system.Job.{Job}
use distributed_queue_system.Queue.{unsigned_mod, count}
use distributed_queue_system.Queue.Refine.{length-contents}
use distributed_queue_system.Queue.Invariant.{count-eq-sub}
use distributed_queue_system.History.{JobHistory, lookup_job}
use distributed_queue_system.History.Change.{lookup_job-write_entry}
use distributed_queue_system.Proto.{state_code, wait}
use distributed_queue_system.Proto.RoundTrip.{u8_mod}
use distributed_queue_system.Proto.Setters.{set_check_exec_server}
use distributed_queue_system.Server.{MainServer}
use distributed_queue_system.Server.Reply.{done, Env, Peer}
use distributed_queue_system.Server.Invariant.{IsSound, queued}
use distributed_queue_system.Server.Dispatch.{check_server_status, hand_out, send_job}
use distributed_queue_system.Server.Dispatch.Back.{requeued, put_job_back_held}
use distributed_queue_system.Server.Dispatch.Laws.{first, taken, send_job_takes}

-- A sound server in which one job waits, at `p`.
pub record Waits (p : ℕ) (job : Job) (s : MainServer) : Type 0 where
  pub sound : IsSound s
  pub alone : queued s ≡ p ∷ []
  pub stored_job : s.heap p ≡ some job
  pub entry : JobHistory
  pub held : lookup_job job.id s.history ≡ some entry
  pub is_wait : entry.state ≡ state_code wait
  pub small : entry.exit_status < u8_mod

module _ (e : Env) (peer : Peer) (p : ℕ) (job : Job) (s : MainServer) (w : Waits p job s) where
  Waits-count : count (s.queue 0) ≢ 0
  Waits-count =
      omega
        (arith, count-eq-sub w.sound.queue_valid, length-contents (s.queue 0), ap length w.alone)

  -- The job is where it was, behind no other, and its record as it was, in the same queue.
  pub send_job_turned :
      check_server_status peer ≡ false
      → (s.queue 0).put_idx + 1 < unsigned_mod
      → (s' : MainServer) × (send_job e peer s
          ≡ done (set_check_exec_server peer.check_pkg ∷ []) false s')
        × Waits p job s'
        × ((s'.queue 0).put_idx ≡ (s.queue 0).put_idx + 1)
  unfolding hand_out
  send_job_turned c room =
      let (t, h, q) = send_job_takes e peer s w.sound Waits-count in
      let head : first s ≡ p = ap head_or (sym q ∙ w.alone) in
      let rest : queued (taken s) ≡ [] = ap tail_of (sym q ∙ w.alone) in
      let (s', r, v', q', hp, hist, put) =
        put_job_back_held (set_check_exec_server peer.check_pkg ∷ []) (first s) (taken s) h room job
          w.entry (ap s.heap head ∙ w.stored_job) w.held in
      (
        s',
        t ∙ (ground (arith, c) ∙ r),
        record {
          sound = v';
          alone = q' ∙ (ap (λ l. l ++ first s ∷ []) rest ∙ ap (λ x. x ∷ []) head);
          stored_job = ap (λ f. f p) hp ∙ w.stored_job;
          entry = requeued w.entry;
          held =
              ap (lookup_job job.id) hist
              ∙ (lookup_job-write_entry job.id requeued (λ _. refl) s.history w.sound.history_valid
                    job.id
                  ∙ ground (arith, w.held));
          is_wait = w.is_wait;
          small = w.small;
        },
        put,
      )
    where
      head_or : List ℕ → ℕ
      head_or [] = 0
      head_or (x ∷ xs) = x

      tail_of : List ℕ → List ℕ
      tail_of [] = []
      tail_of (x ∷ xs) = xs
