-- ===== src/Client/Withdrawal.antt =====
-- `unsubmit` of client.c, served by unsubmit of main_server.c, and `statejob` after it.
mod Tests
use distributed_queue_system.Base.{
  ℕ, ◌%◌, ◌^◌, ◌<◌, ◌≡◌, true, List, [], ◌∷◌, ◌++◌, none, some, arith, ap, ◌∙◌, ◌==◌, if◌then◌else◌,
  All,
}
use distributed_queue_system.Job.{Job, free}
use distributed_queue_system.Queue.{max_jobs_queue}
use distributed_queue_system.Queue.Remove.Loops.{Other}
use distributed_queue_system.History.{lookup_job}
use distributed_queue_system.Proto.{type_code, unsub, unsub_resp, unsubmited}
use distributed_queue_system.Proto.Memory.{Msg}
use distributed_queue_system.Proto.Getters.{get_type, get_job_id}
use distributed_queue_system.Proto.Setters.{set_unsubmit, set_unsubmit_client}
use distributed_queue_system.Proto.RoundTrip.{u8_mod, u16_mod, Header}
use distributed_queue_system.Transport.{ok}
use distributed_queue_system.Server.{MainServer}
use distributed_queue_system.Server.Reply.{done, Env}
use distributed_queue_system.Server.Invariant.{IsSound, queued}
use distributed_queue_system.Server.Attend.{attend_client}
use distributed_queue_system.Server.Unsubmit.{mark, unsubmit}
use distributed_queue_system.Server.Unsubmit.Laws.{IsWaiting, unsubmit_removes}
use distributed_queue_system.Client.{
  unsubmit_request, job_state_request, job_unsubmited, job_state, state_line, show,
}
use distributed_queue_system.Client.EndToEnd.{job_state_held}

unsubmit_request-served :
    (e : Env) (raw : Msg) (jobid : ℕ) (s : MainServer)
    → jobid < u16_mod
    → attend_client e ok (unsubmit_request raw jobid) s ≡ unsubmit e jobid s
unfolding attend_client unsubmit_request set_unsubmit_client
unsubmit_request-served e raw jobid s h =
    ap (λ j. unsubmit e j s) {x = get_job_id (unsubmit_request raw jobid)} (omega arith)

show-set_unsubmit :
    (m : Msg) (jobid : ℕ) → jobid < u16_mod → show (set_unsubmit m jobid) ≡ job_unsubmited jobid
unfolding show set_unsubmit
show-set_unsubmit m jobid h =
    ap job_unsubmited {x = get_job_id (set_unsubmit m jobid)} (omega arith)

-- A client unsubmits a job that is queued, behind jobs of other ids only, and that the history holds
-- as waiting, with an exit status in a byte, on a sound server where the live part of the array does
-- not go round its end; the id fits 16 bits. The client
-- shows that the job was unsubmitted; the server, still sound, holds it no longer in its queue or
-- its memory, and the others in the same order; and a client that then asks for it is shown that it
-- was unsubmitted.
pub unsubmit_then_state :
    (e e' : Env) (raw raw' : Msg) (jobid : ℕ) (s : MainServer) (pre post : List ℕ) (p : ℕ)
    (job : Job)
    → jobid < u16_mod
    → IsSound s
    → (w : IsWaiting jobid s) → w.entry.exit_status < u8_mod
    → (s.queue 0).get_idx % max_jobs_queue < (s.queue 0).put_idx % max_jobs_queue
    → queued s ≡ pre ++ p ∷ post
    → All (Other jobid s.heap) pre
    → s.heap p ≡ some job
    → job.id ≡ jobid
    → (told shown : Msg) × (s' : MainServer) × (attend_client e ok (unsubmit_request raw jobid) s
        ≡ done (told ∷ []) true s')
      × (show told ≡ job_unsubmited jobid)
      × IsSound s'
      × (queued s' ≡ pre ++ post)
      × (s'.heap ≡ free s.heap p)
      × (attend_client e' ok (job_state_request raw' jobid) s' ≡ done (shown ∷ []) true s')
      × (show shown ≡ job_state jobid (some (unsubmited, none)))
unfolding state_line
unsubmit_then_state e e' raw raw' jobid s pre post p job h v w small lt c a l i =
    let (s', u, q, hp) = unsubmit_removes e jobid s v w pre post p job lt c a l i in
    let (shown, r, y) =
      job_state_held e' raw' jobid s' (mark w.entry) h (u.lookups jobid ∙ ground (arith, w.held))
        (omega arith) small in
    (
      set_unsubmit e.pkg jobid,
      shown,
      s',
      unsubmit_request-served e raw jobid s h ∙ u.returns,
      show-set_unsubmit e.pkg jobid h,
      u.sound,
      q,
      hp,
      r,
      y,
    )
