-- ===== src/ExecServer/Child/Failures.antt =====
-- What the parent learns of a child that runs no program, or runs it elsewhere.
use distributed_queue_system.Base.{
  ℕ, ◌*◌, ◌-◌, ◌^◌, ◌<◌, ◌≡◌, ◌≢◌, refl, ap, ◌∙◌, true, false, List, [], ◌∷◌, some, arith, length,
  take, ◌==◌, All,
}
use distributed_queue_system.Proto.{
  arg_max, type_code, sendjob_nointer, sendjob_inter, sz_path, num_path, error,
}
use distributed_queue_system.Proto.Memory.{Msg, strncpy}
use distributed_queue_system.Proto.Getters.{
  get_type, get_exec_file_exec, get_exec_addr_jid, get_exec_addr_file_exec,
}
use distributed_queue_system.Proto.Setters.{set_job_run, set_job_done}
use distributed_queue_system.Proto.RoundTrip.{u16_mod}
use distributed_queue_system.Server.Reply.{Env}
use distributed_queue_system.Server.Submit.{inter_job}
use distributed_queue_system.Server.Dispatch.{job_message}
use distributed_queue_system.Server.Relay.{relay_inter}
use distributed_queue_system.Client.{get_args_submit_int}
use distributed_queue_system.ExecServer.{
  Status, Round, returned, job_id_of, father_job_routine, exec_job,
}
use distributed_queue_system.ExecServer.Arguments.{args}
use distributed_queue_system.ExecServer.Words.{words}
use distributed_queue_system.ExecServer.Ends.{end_of}
use distributed_queue_system.ExecServer.Child.{
  System, Process, ChildEnd, no_host, refused, exits, executes, set_fds_no_iter, set_fds_iter,
  socket_port_connect, execute, consume_job, child_status,
}
use distributed_queue_system.ExecServer.Child.Delivery.{args-strncpy, execute-runs, take-ne-nil}

execute-fails :
    (sys : System) (line : List ℕ) (p : Process) (argv : List (List ℕ))
    → args (strncpy (sz_path * num_path) line) ≡ argv
    → argv ≢ []
    → sys.runs argv ≡ false
    → execute sys line p ≡ exits 40
unfolding execute
execute-fails sys line p [] e n r = absurd (n refl)
execute-fails sys line p (w ∷ ws) e n r = ground (arith, e, r)

-- The arguments that the line of a job gives.
abbrev pub line_args : Msg → List (List ℕ)
line_args m = args (strncpy (sz_path * num_path) (get_exec_file_exec m).exec_file)

module _ (ended crash : Status) (sys : System) (m : Msg) (p : Process) where
  -- A child that is given a job which is not interactive, with a word in its line, and
  -- execvp cannot run the program: the parent learns of an error, 40, whether or not the files could
  -- be opened and the directory entered.
  pub consume_job_fails :
      get_type m ≡ type_code sendjob_nointer
      → line_args m ≢ []
      → sys.runs (line_args m) ≡ false
      → end_of (child_status ended crash (consume_job sys m p)) ≡ some (error, 40)
  unfolding consume_job child_status
  consume_job_fails t n r = rw t (
      ap (λ c. end_of (child_status ended crash c))
        (execute-fails sys (get_exec_file_exec m).exec_file (set_fds_no_iter sys m p) (line_args m)
          refl n r))

consume_job-no_host :
    (sys : System) (m : Msg) (p : Process)
    → get_type m ≡ type_code sendjob_inter
    → consume_job (record sys { reached = no_host }) m p ≡ exits 0
unfolding consume_job set_fds_iter socket_port_connect
consume_job-no_host sys m p t = ground (arith, t)

consume_job-refused :
    (sys : System) (m : Msg) (p : Process) (line : List ℕ)
    → get_type m ≡ type_code sendjob_inter
    → (get_exec_addr_file_exec m).exec_file ≡ line
    → consume_job (record sys { reached = refused }) m p
      ≡ execute (record sys { reached = refused }) line p
unfolding consume_job set_fds_iter socket_port_connect
consume_job-refused sys m p line t x = ground (arith, t, x)

-- The round in which a job's message comes, and what becomes of the child is what `wait` reports.
abbrev pub forked_round : Round → Msg → Status → Round
forked_round round m status = record round { pkg = m; forked = true; status = status }

exec_job-exits :
    (ended crash : Status) (round : Round) (m : Msg) (jobid code : ℕ) (child : ChildEnd)
    → get_type m ≡ type_code sendjob_inter
    → get_exec_addr_jid m ≡ jobid
    → child ≡ exits code
    → exec_job (forked_round round m (child_status ended crash child))
      ≡ returned (set_job_run round.raw jobid ∷ set_job_done round.raw jobid code ∷ []) true
unfolding exec_job father_job_routine job_id_of child_status
exec_job-exits ended crash round m jobid code child t j c = rw c (ground (arith, t, j))

-- The message for a client's interactive job, whose line and directory are shorter than 256 bytes,
-- where the line holds no 0 and has a word, and whose address is not 0. On a system that does not
-- know the client's host the child becomes no program, and the parent reports all the same that the
-- job runs, and then that it finished with 0. On one that knows it, but where the connection is
-- refused, and that can run the program, the child runs the first 19 words of the line with the
-- descriptors and in the directory of the execution server.
pub consume_job_unreached :
    (e : Env) (client_pkg server_pkg : Msg) (line dir : List ℕ) (addr port jobid : ℕ) (sys : System)
    (p : Process) (ended crash : Status) (round : Round)
    → addr ≢ 0
    → addr < 2 ^ 32
    → port < u16_mod
    → jobid < u16_mod
    → length line < sz_path * num_path
    → All (λ c. (c == 0) ≡ false) line
    → words line ≢ []
    → sys.runs (take (arg_max - 1) (words line)) ≡ true
    → let job = inter_job e (get_args_submit_int client_pkg line dir addr port) in
      let m = job_message server_pkg (record job { id = jobid }) in
      let lost = consume_job (record sys { reached = no_host }) m p in
      (lost ≡ exits 0)
      × (exec_job (forked_round round m (child_status ended crash lost))
          ≡ returned (set_job_run round.raw jobid ∷ set_job_done round.raw jobid 0 ∷ []) true)
      × (consume_job (record sys { reached = refused }) m p
          ≡ executes p (take (arg_max - 1) (words line)))
unfolding get_args_submit_int
consume_job_unreached e client_pkg server_pkg line dir addr port jobid sys p ended crash round nz ha
      hp hj hl zl ne r =
    let (h, x) = relay_inter e client_pkg server_pkg line dir addr port jobid nz ha hp hj in
    let gone = consume_job-no_host sys _ p h.type_read in
    (
      gone,
      exec_job-exits ended crash round _ jobid 0 _ h.type_read x.jid_read gone,
      consume_job-refused sys _ p (strncpy 256 line) h.type_read x.exec_read
          ∙ execute-runs (record sys { reached = refused }) (strncpy 256 line) p
              (take 19 (words line)) (args-strncpy line hl zl) (take-ne-nil 18 (words line) ne) r,
    )
