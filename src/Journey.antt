-- ===== src/Journey.antt =====
-- A job between the three programs: client.c submits it, copies of exec_server.c ask main_server.c
-- for a job one after another, and the client asks what became of it.
mod Tests
use distributed_queue_system.Base.{
  ℕ, ◌+◌, ◌*◌, ◌^◌, ◌<◌, ◌≡◌, ◌≢◌, refl, ap, ◌∙◌, Bool, true, false, List, [], ◌∷◌, ◌++◌, map,
  Option, none, some, arith, length, All,
}
use distributed_queue_system.Job.{Job}
use distributed_queue_system.Queue.{max_jobs_queue, unsigned_mod, count}
use distributed_queue_system.Queue.Refine.{length-contents}
use distributed_queue_system.Queue.Invariant.{count-eq-sub}
use distributed_queue_system.Proto.{wait, sz_path, num_path}
use distributed_queue_system.Proto.Memory.{Msg, strncpy}
use distributed_queue_system.Proto.RoundTrip.{u8_mod}
use distributed_queue_system.Proto.Setters.{
  set_job_req, set_check_exec_server, set_check_exec_server_ack,
}
use distributed_queue_system.Transport.{Ret, ok, closed, failed}
use distributed_queue_system.Server.{MainServer}
use distributed_queue_system.Server.Reply.{Result, done, waits, fault, Env, Peer}
use distributed_queue_system.Server.Invariant.{IsSound, HasRoom, queued}
use distributed_queue_system.Server.Submit.Laws.{new_id}
use distributed_queue_system.Server.Dispatch.{check_server_status, send_job}
use distributed_queue_system.Server.Dispatch.Turned.{Waits, send_job_turned}
use distributed_queue_system.Server.Attend.{attend_client, attend_exec_serv, server_request}
use distributed_queue_system.Client.{
  get_args_submit, job_state_request, job_submitted, job_state, state_line, show,
}
use distributed_queue_system.Client.Session.{new_id-small}
use distributed_queue_system.Client.EndToEnd.{submit_end_to_end, job_state_held}
use distributed_queue_system.ExecServer.{Round, Served, returned, send_ack, exec_server_protocol}

-- One execution server that asks for a job, on a connection of its own: what the main server's call
-- is given, how the main server's sends and receives on it end, and the two calls of recvMsg in which
-- the execution server waits for a job, of which the first brings the check.
pub record Attempt : Type 0 where
  pub env : Env
  pub check_pkg : Msg
  pub request : Msg
  pub ack_received : Ret
  pub job_sent : Ret
  pub serving : Round
  pub next : Round

-- The round that brings the main server's check.
abbrev pub check_round : Attempt → Round
check_round a = record a.serving { received = ok; pkg = set_check_exec_server a.check_pkg }

-- The execution server as the main server sees it: the answer is sendAck's, when sendAck gives it.
abbrev pub peer_of : Attempt → Peer
peer_of a =
    let answer = send_ack (check_round a) in
    record {
      check_pkg = a.check_pkg;
      check_sent = ok;
      arrives = some answer.seconds;
      ack_received = a.ack_received;
      ack = answer.message;
      job_sent = a.job_sent;
    }

-- What one attempt is sent, with whether its connection goes on, before those of the later ones.
abbrev then_asked :
    Result
    → (MainServer → List (List Msg × Bool) × Option MainServer)
    → List (List Msg × Bool) × Option MainServer
then_asked (done out flag s) later = let rest = later s in ((out, flag) ∷ rest.0, rest.1)
then_asked (waits out s) later = ((out, true) ∷ [], none)
then_asked fault later = ([], none)

-- The main server attends to one execution server after another.
unfoldable pub all_ask : List Attempt → MainServer → List (List Msg × Bool) × Option MainServer
all_ask [] s = ([], some s)
all_ask (a ∷ attempts) s =
    then_asked (attend_exec_serv a.env (peer_of a) ok (set_job_req a.request) s)
      (λ s'. all_ask attempts s')

-- A request for a job reaches sendJob.
attend_exec_serv-set_job_req :
    (e : Env) (peer : Peer) (raw : Msg) (s : MainServer)
    → attend_exec_serv e peer ok (set_job_req raw) s ≡ send_job e peer s
unfolding attend_exec_serv server_request set_job_req
attend_exec_serv-set_job_req e peer raw s = refl

-- The sleep in sendAck is longer than checkServerStatus waits.
check_server_status-peer_of : (a : Attempt) → check_server_status (peer_of a) ≡ false
unfolding check_server_status
check_server_status-peer_of a = ground arith

-- After its ACK the execution server finds the connection ended, and has run nothing.
exec_server_protocol-hung_up :
    (a : Attempt)
    → a.next.received ≢ ok
    → exec_server_protocol (check_round a ∷ a.next ∷ [])
      ≡ returned (set_check_exec_server_ack a.serving.raw ∷ []) false
unfolding exec_server_protocol set_check_exec_server
exec_server_protocol-hung_up a n = ground (arith, n)

-- What all of them are sent: the check, and no more.
abbrev pub checks : List Attempt → List (List Msg × Bool)
checks = map (λ a. (set_check_exec_server a.check_pkg ∷ [], false))

all_ask-Waits :
    (attempts : List Attempt) (p : ℕ) (job : Job) (s : MainServer)
    → Waits p job s
    → (s.queue 0).put_idx + length attempts < unsigned_mod
    → (s' : MainServer) × (all_ask attempts s ≡ (checks attempts, some s')) × Waits p job s'
unfolding all_ask
all_ask-Waits [] p job s w room = (s, refl, w)
all_ask-Waits (a ∷ attempts) p job s w room =
    let (s₁, r, w₁, put) =
      send_job_turned a.env (peer_of a) p job s w (check_server_status-peer_of a) (omega arith) in
    let (s₂, rest, w₂) = all_ask-Waits attempts p job s₁ w₁ (omega (arith, put)) in
    (
      s₂,
      ap (λ r. then_asked r (λ s'. all_ask attempts s'))
            (attend_exec_serv-set_job_req a.env (peer_of a) a.request s ∙ r)
          ∙ ap
              (λ (k : List (List Msg × Bool) × Option MainServer).
                ((set_check_exec_server a.check_pkg ∷ [], false) ∷ k.0, k.1))
              rest,
      w₂,
    )

hung_up_each :
    (attempts : List Attempt)
    → All (λ a. a.next.received ≢ ok) attempts
    → All
        (λ a.
          exec_server_protocol (check_round a ∷ a.next ∷ [])
          ≡ returned (set_check_exec_server_ack a.serving.raw ∷ []) false)
        attempts
hung_up_each [] n = tt
hung_up_each (a ∷ attempts) n = (exec_server_protocol-hung_up a n.0, hung_up_each attempts n.1)

-- A client submits a line to a sound server whose queue is empty, with its counters below their
-- limits, a fresh block for the job and a block for its record whose `exit_status` fits a byte. Then
-- any number of execution servers, for which `put_idx` has room, ask for a job one after another,
-- each taking as long as it likes for all but the sleep in sendAck, and finding the connection ended
-- after its ACK. The client is shown the job's id; every one of them is sent the check only, and its
-- connection ends; it answers with an ACK and runs no job; the server stays sound, and holds the job
-- alone; and a client that asks for the id is shown that it waits.
pub never_sent :
    (e e' : Env) (raw raw' : Msg) (line dir : List ℕ) (attempts : List Attempt) (s : MainServer)
    → IsSound s
    → HasRoom s
    → s.heap e.addr ≡ none
    → queued s ≡ []
    → e.history_block.exit_status < u8_mod
    → (s.queue 0).put_idx + 1 + length attempts < unsigned_mod
    → All (λ a. a.next.received ≢ ok) attempts
    → (shown_id told : Msg) × (s₁ s₂ : MainServer) × (attend_client e ok
          (get_args_submit raw line dir)
          s
        ≡ done (shown_id ∷ []) true s₁)
      × (show shown_id ≡ job_submitted (new_id s))
      × (all_ask attempts s₁ ≡ (checks attempts, some s₂))
      × All
          (λ a.
            exec_server_protocol (check_round a ∷ a.next ∷ [])
            ≡ returned (set_check_exec_server_ack a.serving.raw ∷ []) false)
          attempts
      × IsSound s₂
      × (queued s₂ ≡ e.addr ∷ [])
      × (attend_client e' ok (job_state_request raw' (new_id s)) s₂ ≡ done (told ∷ []) true s₂)
      × (show told ≡ job_state (new_id s) (some (wait, none)))
unfolding state_line
never_sent e e' raw raw' line dir attempts s v room fresh empty small many hung =
    let (shown_id, s₁, r, x, t) = submit_end_to_end e raw line dir s v room fresh not_full in
    let (s₂, asked, w) =
      all_ask-Waits attempts e.addr _ s₁
        (record {
          sound = t.sound;
          alone = t.behind ∙ ap (λ l. l ++ e.addr ∷ []) empty;
          stored_job = t.stored_job;
          entry = _;
          held = t.entry;
          is_wait = refl;
          small = small;
        })
        (omega (arith, t.puts)) in
    let (told, answered, y) =
      job_state_held e' raw' (new_id s) s₂ w.entry (new_id-small s) w.held
        (omega (arith, w.is_wait)) w.small in
    (
      shown_id,
      told,
      s₁,
      s₂,
      r,
      x,
      asked,
      hung_up_each attempts hung,
      w.sound,
      w.alone,
      answered,
      y ∙ ground (arith, w.is_wait),
    )
  where
    not_full : count (s.queue 0) ≢ max_jobs_queue
    not_full =
        omega (arith, count-eq-sub v.queue_valid, length-contents (s.queue 0), ap length empty)
