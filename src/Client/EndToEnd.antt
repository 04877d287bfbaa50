-- ===== src/Client/EndToEnd.antt =====
-- A client's request, served by the main server, and what the client shows of the answer.
use distributed_queue_system.Base.{
  ℕ, ◌%◌, ◌^◌, ◌<◌, ◌≡◌, ◌≢◌, true, List, [], ◌∷◌, Option, none, some, arith, ap, ap₂, ◌∙◌, subst,
  Option-cases, inl, inr, eq-or-ne, ◌*◌, length, ◌==◌, if◌then◌else◌,
}
use distributed_queue_system.Queue.{max_jobs_queue, count, avail, full}
use distributed_queue_system.Transport.{ok}
use distributed_queue_system.History.{JobHistory, lookup_job}
use distributed_queue_system.Proto.{
  type_code, jobstate_resp, questate_resp, bad_params, sz_path, num_path,
}
use distributed_queue_system.Proto.Memory.{Msg, strncpy}
use distributed_queue_system.Proto.Getters.{
  get_type, get_job_id, get_queue_id, get_job_state_id, get_job_state_state,
  get_job_state_exit_value, get_queue_state_id, get_queue_state_state,
}
use distributed_queue_system.Proto.Setters.{
  set_job_id, set_job_state_client, set_queue_state_client, set_bad_params,
  set_file_exec_no_inter_client,
}
use distributed_queue_system.Proto.RoundTrip.{
  u8_mod, u16_mod, get_job_id-set_job_id, set_file_exec_no_inter_client_lem,
}
use distributed_queue_system.Server.{MainServer}
use distributed_queue_system.Server.Reply.{done, Env}
use distributed_queue_system.Server.Attend.{attend_client}
use distributed_queue_system.Server.Query
use distributed_queue_system.Server.Query.{job_state_reply, queue_state_reply}
use distributed_queue_system.Server.Query.Laws.{
  job_state_reply_held, queue_state_reply_full, queue_state_reply_bad,
}
use distributed_queue_system.Server.Submit.{no_inter_job, new_job, submit_no_inter}
use distributed_queue_system.Server.Submit.Laws.{new_id, Submitted, new_job_stores}
use distributed_queue_system.Server.Relay.{no_inter_job_lem}
use distributed_queue_system.Job.{Job}
use distributed_queue_system.Server.Invariant.{IsSound, HasRoom, queued}
use distributed_queue_system.Client.{
  get_args_submit, job_state_request, queue_state_request, Shown, job_submitted, job_state,
  queue_state, bad_parameters, state_line, queue_state_line, show,
}

-- What the client shows for a job that the history holds, or does not.
unfoldable pub shown_entry : ℕ → Option JobHistory → Shown
shown_entry jobid none = bad_parameters
shown_entry jobid (some entry) = job_state jobid (state_line entry.state entry.exit_status)

show-jobstate_resp :
    (m : Msg)
    → get_type m ≡ type_code jobstate_resp
    → show m
      ≡ job_state
          (get_job_state_id m)
          (state_line (get_job_state_state m) (get_job_state_exit_value m))
unfolding show
show-jobstate_resp m h = ground (arith, h)

show-questate_resp :
    (m : Msg)
    → get_type m ≡ type_code questate_resp
    → show m ≡ queue_state (get_queue_state_id m) (queue_state_line (get_queue_state_state m))
unfolding show
show-questate_resp m h = ground (arith, h)

show-bad_params : (m : Msg) → get_type m ≡ type_code bad_params → show m ≡ bad_parameters
unfolding show
show-bad_params m h = ground (arith, h)

-- The request of `statejob n` reaches jobState with the id that atoi gave, cut to 16 bits.
job_state_request-served :
    (e : Env) (raw : Msg) (n : ℕ) (s : MainServer)
    → attend_client e ok (job_state_request raw n) s ≡ Query.job_state e (n % 2 ^ 16) s
unfolding attend_client job_state_request set_job_state_client
job_state_request-served e raw n s =
    ap (λ j. Query.job_state e j s) {x = get_job_id (job_state_request raw n)} (omega arith)

-- What is shown of an entry goes through the client's switch.
pub job_state_answered :
    (e : Env) (raw : Msg) (n : ℕ) (s : MainServer)
    → ((entry : JobHistory)
        → lookup_job (n % 2 ^ 16) s.history ≡ some entry
        → (entry.state < u8_mod) × (entry.exit_status < u8_mod))
    → (answer : Msg) × (attend_client e ok (job_state_request raw n) s ≡ done (answer ∷ []) true s)
      × (show answer ≡ shown_entry (n % 2 ^ 16) (lookup_job (n % 2 ^ 16) s.history))
unfolding Query.job_state shown_entry set_bad_params
job_state_answered e raw n s b = (
  job_state_reply e.pkg (n % 2 ^ 16) s,
  job_state_request-served e raw n s,
  elim (Option-cases (lookup_job (n % 2 ^ 16) s.history)) [
    | inl l ↦
        rw l (show-bad_params (job_state_reply e.pkg (n % 2 ^ 16) s) (rw (job_state_reply, l)))
    | inr (entry, l) ↦
        let r =
          job_state_reply_held e.pkg (n % 2 ^ 16) s entry l (omega arith) (b entry l).0
            (b entry l).1 in
        rw l (
          show-jobstate_resp (job_state_reply e.pkg (n % 2 ^ 16) s) r.0.type_read
          ∙ ap₂ job_state r.1 (ap₂ state_line r.2 r.3))
  ],
)

-- Asked for a job that the history holds, its state and exit status in a byte each, the client shows
-- what the history holds.
pub job_state_held :
    (e : Env) (raw : Msg) (jobid : ℕ) (s : MainServer) (entry : JobHistory)
    → jobid < 2 ^ 16
    → lookup_job jobid s.history ≡ some entry
    → entry.state < u8_mod
    → entry.exit_status < u8_mod
    → (answer : Msg) × (attend_client e ok (job_state_request raw jobid) s
        ≡ done (answer ∷ []) true s)
      × (show answer ≡ job_state jobid (state_line entry.state entry.exit_status))
unfolding shown_entry
job_state_held e raw jobid s entry h l b x =
    let (answer, r, w) =
      job_state_answered e raw jobid s
        (λ found k. same (subst (λ n. lookup_job n s.history ≡ some found) (small jobid h) k)) in
    (
      answer,
      r,
      subst (λ n. show answer ≡ shown_entry n (lookup_job n s.history)) (small jobid h) w
          ∙ ap (shown_entry jobid) l,
    )
  where
    small : (n : ℕ) → n < 2 ^ 16 → n % 2 ^ 16 ≡ n
    small n lt = omega arith

    same :
        {found : JobHistory}
        → lookup_job jobid s.history ≡ some found
        → (found.state < u8_mod) × (found.exit_status < u8_mod)
    same k = ground (arith, k, l, b, x)

queue_state_request-served :
    (e : Env) (raw : Msg) (n : ℕ) (s : MainServer)
    → attend_client e ok (queue_state_request raw n) s ≡ Query.queue_state e (n % 2 ^ 8) s
unfolding attend_client queue_state_request set_queue_state_client
queue_state_request-served e raw n s =
    ap (λ j. Query.queue_state e j s) {x = get_queue_id (queue_state_request raw n)} (omega arith)

-- What the client shows for the queue with an id.
unfoldable pub shown_queue : ℕ → MainServer → Shown
shown_queue queueid s =
    if queueid == 0
    then queue_state 0 (some (if length (queued s) == max_jobs_queue then full else avail))
    else bad_parameters

-- Asked by the client for a queue, the id cut to 8 bits, a sound server is unchanged; for queue
-- 0 the client shows that it is full if it holds 15 jobs, and that it is available if it holds
-- fewer; for another, that the parameters are bad.
pub queue_state_end_to_end :
    (e : Env) (raw : Msg) (n : ℕ) (s : MainServer)
    → IsSound s
    → (answer : Msg) × (attend_client e ok (queue_state_request raw n) s
        ≡ done (answer ∷ []) true s)
      × (show answer ≡ shown_queue (n % 2 ^ 8) s)
unfolding Query.queue_state shown_queue queue_state_line
queue_state_end_to_end e raw n s v = (
  queue_state_reply e.pkg (n % 2 ^ 8) s,
  queue_state_request-served e raw n s,
  elim (eq-or-ne (n % 2 ^ 8) 0) [
    | inl z ↦
        let r = queue_state_reply_full e.pkg s v in
        rw z (
          show-questate_resp (queue_state_reply e.pkg 0 s) r.0.type_read
          ∙ (ap₂ queue_state r.1 (ap queue_state_line r.2) ∙ ground arith))
    | inr nz ↦
        let r = queue_state_reply_bad e.pkg (n % 2 ^ 8) s (omega arith) in
        show-bad_params (queue_state_reply e.pkg (n % 2 ^ 8) s) r.type_read ∙ ground arith
  ],
)

show-set_job_id :
    (m : Msg) (jobid : ℕ) → jobid < u16_mod → show (set_job_id m jobid) ≡ job_submitted jobid
unfolding show
show-set_job_id m jobid h =
    let r = get_job_id-set_job_id m jobid h in ground (arith, r.0.type_read, ap job_submitted r.1)

get_args_submit-served :
    (e : Env) (raw : Msg) (line dir : List ℕ) (s : MainServer)
    → attend_client e ok (get_args_submit raw line dir) s
      ≡ new_job e (no_inter_job e (set_file_exec_no_inter_client raw line dir 0)) s
unfolding attend_client get_args_submit submit_no_inter
get_args_submit-served e raw line dir s =
    let r = set_file_exec_no_inter_client_lem raw line dir 0 (omega arith) in
    ground (arith, r.0.type_read)

-- A submission to a sound server with room in its queue, with both counters below their limits
-- and a fresh block for the job: the client shows the new id, and the server, still sound,
-- holds the job behind those already queued, with the line and the directory as strncpy leaves
-- them in 256 bytes, and its record as waiting.
pub submit_end_to_end :
    (e : Env) (raw : Msg) (line dir : List ℕ) (s : MainServer)
    → IsSound s
    → HasRoom s
    → s.heap e.addr ≡ none
    → count (s.queue 0) ≢ max_jobs_queue
    → (answer : Msg) × (s' : MainServer) × (attend_client e ok (get_args_submit raw line dir) s
        ≡ done (answer ∷ []) true s')
      × (show answer ≡ job_submitted (new_id s))
      × Submitted e
          (record e.job_block {
            port = 0;
            ipaddr = 0;
            exec_file = strncpy (sz_path * num_path) line;
            working_dir = strncpy sz_path dir;
          })
          s
          s'
unfolding get_args_submit submit_no_inter
submit_end_to_end e raw line dir s v room fresh n =
    let (s', r, t) =
      new_job_stores e
        (record e.job_block {
          port = 0;
          ipaddr = 0;
          exec_file = strncpy 256 line;
          working_dir = strncpy 256 dir;
        })
        s v room fresh n in
    (
      set_job_id e.pkg (new_id s),
      s',
      served ∙ (ap (λ (job : Job). new_job e job s) (no_inter_job_lem e raw line dir) ∙ r),
      show-set_job_id e.pkg (new_id s) (omega arith),
      t,
    )
  where
    served :
        attend_client e ok (get_args_submit raw line dir) s
        ≡ new_job e (no_inter_job e (set_file_exec_no_inter_client raw line dir 0)) s
    served = get_args_submit-served e raw line dir s
