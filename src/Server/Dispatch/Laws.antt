-- ===== src/Server/Dispatch/Laws.antt =====
-- sendJob hands jobs out in order of arrival, and puts them back at the end when it fails.
use distributed_queue_system.Base.{
  ℕ, ◌+◌, ◌%◌, ◌^◌, ◌<◌, ◌≡◌, ◌≢◌, refl, true, false, List, [], ◌∷◌, ◌++◌, none, some, arith, ap,
  ◌∙◌, subst,
}
use distributed_queue_system.Job.{Job, free}
use distributed_queue_system.Queue.{unsigned_mod, count, oldest, advanced}
use distributed_queue_system.Queue.Steps.{take_job-Taken, take_job_empty}
use distributed_queue_system.History.{JobHistory, lookup_job}
use distributed_queue_system.Proto.Memory.{Msg}
use distributed_queue_system.Proto.Setters.{set_check_exec_server}
use distributed_queue_system.Server.{MainServer, set_queue, next_get_queue_lem, take_section}
use distributed_queue_system.Transport.{ok}
use distributed_queue_system.Server.Reply.{done, waits, Env, Peer}
use distributed_queue_system.Server.Owned.{Owned, Owned-free}
use distributed_queue_system.Server.Invariant.{IsSound, queued}
use distributed_queue_system.Server.Dispatch.{
  check_server_status, put_job_back, job_message, hand_out, send_job_in, send_job,
}
use distributed_queue_system.Server.Dispatch.Back.{Holds, put_job_back_held, put_job_back_dangling}

-- The server after next_get_queue and the section that takes a job.
abbrev pub taken : MainServer → MainServer
taken s = set_queue (record s { queue2get = (s.queue2get + 1) % 2 ^ 32 }) 0 (advanced (s.queue 0))

abbrev pub first : MainServer → ℕ
first s = oldest (s.queue 0)

-- When the queue is empty, sendJob waits, having sent nothing.
pub send_job_waits :
    (e : Env) (peer : Peer) (s : MainServer)
    → count (s.queue 0) ≡ 0
    → send_job e peer s ≡ waits [] (record s { queue2get = (s.queue2get + 1) % 2 ^ 32 })
unfolding send_job take_section
send_job_waits e peer s h =
    ap (send_job_in e peer) (next_get_queue_lem s) ∙ ground (arith, take_job_empty (s.queue 0) h)

-- Otherwise it goes on with the oldest job, which it holds alone.
pub send_job_takes :
    (e : Env) (peer : Peer) (s : MainServer)
    → IsSound s
    → count (s.queue 0) ≢ 0
    → (send_job e peer s ≡ hand_out e peer (first s) (taken s))
      × Holds (first s) (taken s)
      × (queued s ≡ first s ∷ queued (taken s))
unfolding send_job
send_job_takes e peer s v n =
    let t = take_job-Taken (s.queue 0) v.queue_valid n in
    (
      ap (send_job_in e peer) (next_get_queue_lem s) ∙ ground (arith, t.returns),
      record {
        queue_valid = t.valid;
        history_valid = v.history_valid;
        owned = subst (Owned s.heap) t.front v.owned;
        queue_idx = v.queue_idx;
        space = ground arith;
      },
      t.front,
    )

-- The ways in which sendJob fails after it took the job: the peer does not pass the check, or the
-- job cannot be sent.
pub data Fails (peer : Peer) : Type 0 where
  unchecked : check_server_status peer ≡ false → Fails peer
  unsent : check_server_status peer ≡ true → peer.job_sent ≢ ok → Fails peer

hand_out-Fails :
    (e : Env) (peer : Peer) (p : ℕ) (s : MainServer) (job : Job)
    → s.heap p ≡ some job
    → Fails peer
    → (out : List Msg) × (hand_out e peer p s ≡ put_job_back out p s)
unfolding hand_out
hand_out-Fails e peer p s job h (unchecked c) =
    (set_check_exec_server peer.check_pkg ∷ [], ground arith)
hand_out-Fails e peer p s job h (unsent c n) =
    (set_check_exec_server peer.check_pkg ∷ job_message e.pkg job ∷ [], ground arith)

module _ (e : Env) (peer : Peer) (s : MainServer) (job : Job) (v : IsSound s)
    (n : count (s.queue 0) ≢ 0) (h : s.heap (first s) ≡ some job) where
  -- On a sound server whose queue is not empty, for a peer that passes the check and takes the
  -- message, sendJob sends the oldest job, takes it from the queue and frees it; the history is
  -- as it was, and the server stays sound.
  pub send_job_sends :
      check_server_status peer ≡ true
      → peer.job_sent ≡ ok
      → (s' : MainServer) × (send_job e peer s
          ≡ done (set_check_exec_server peer.check_pkg ∷ job_message e.pkg job ∷ []) true s')
        × IsSound s'
        × (queued s ≡ first s ∷ queued s')
        × (s'.heap ≡ free s.heap (first s))
        × (s'.history ≡ s.history)
  unfolding hand_out
  send_job_sends c k =
      let (t, w, q) = send_job_takes e peer s v n in
      (
        record (taken s) { heap = free s.heap (first s) },
        t ∙ ground arith,
        record {
          queue_valid = w.queue_valid;
          history_valid = w.history_valid;
          owned = Owned-free s.heap [] (queued (taken s)) (first s) w.owned;
          queue_idx = w.queue_idx;
        },
        q,
        refl,
        refl,
      )

  -- On a sound server whose queue is not empty, when sendJob fails with a job that the history
  -- holds, and `put_idx` is below its limit, the connection ends, the job goes to the end of
  -- the queue, behind jobs that came later, and the server stays sound.
  pub send_job_requeues :
      (entry : JobHistory)
      → Fails peer
      → (s.queue 0).put_idx + 1 < unsigned_mod
      → lookup_job job.id s.history ≡ some entry
      → (out : List Msg) × (s' : MainServer) × (rest : List ℕ) × (send_job e peer s
          ≡ done out false s')
        × IsSound s'
        × (queued s ≡ first s ∷ rest)
        × (queued s' ≡ rest ++ first s ∷ [])
        × (s'.heap ≡ s.heap)
  send_job_requeues entry f room l =
      let (t, w, q) = send_job_takes e peer s v n in
      let (out, k) = hand_out-Fails e peer (first s) (taken s) job h f in
      let (s', r, v', q', hp, _, _) =
        put_job_back_held out (first s) (taken s) w room job entry h l in
      (out, s', queued (taken s), t ∙ (k ∙ r), v', q, q', hp)

  -- On a sound server whose queue is not empty, when sendJob fails with a job that the history
  -- no longer holds, and `put_idx` is below its limit, the job is freed while its pointer stays
  -- in the queue.
  pub send_job_dangles :
      Fails peer
      → (s.queue 0).put_idx + 1 < unsigned_mod
      → lookup_job job.id s.history ≡ none
      → (out : List Msg) × (s' : MainServer) × (rest : List ℕ) × (send_job e peer s
          ≡ done out false s')
        × (queued s ≡ first s ∷ rest)
        × (queued s' ≡ rest ++ first s ∷ [])
        × (s'.heap (first s) ≡ none)
  send_job_dangles f room l =
      let (t, w, q) = send_job_takes e peer s v n in
      let (out, k) = hand_out-Fails e peer (first s) (taken s) job h f in
      let (s', r, q', hp) = put_job_back_dangling out (first s) (taken s) w room job h l in
      (out, s', queued (taken s), t ∙ (k ∙ r), q, q', hp)
