-- ===== src/ExecServer/Child/Tests.antt =====
-- The child of exec_server.c and the end of its job, on concrete messages.
use distributed_queue_system.Base.{
  ℕ, ◌≡◌, ◌≢◌, refl, true, List, [], ◌∷◌, some, arith, ◌==◌, if◌then◌else◌, ◌⊎◌, ◌++◌,
}
use distributed_queue_system.Text.{codes}
use distributed_queue_system.Transport.{ok}
use distributed_queue_system.History.{lookup_job, find_job, find_from}
use distributed_queue_system.Proto.{finished}
use distributed_queue_system.Proto.Memory.{Msg}
use distributed_queue_system.Proto.Setters.{
  set_job_req, set_job_run, set_job_done, set_closed_connection_exec_server,
}
use distributed_queue_system.Server.{MainServer}
use distributed_queue_system.Server.Reply.{Peer}
use distributed_queue_system.Server.Submit.{no_inter_job, inter_job}
use distributed_queue_system.Server.Dispatch.{job_message}
use distributed_queue_system.Server.Sample.{
  entry_with, two_history, two_jobs, blank, env, two_jobs-IsSound,
}
use distributed_queue_system.Client.{get_args_submit, get_args_submit_int}
use distributed_queue_system.ExecServer.{
  exited, other, Round, returned, job_id_of, father_job_routine, exec_job, job_request,
  exec_server_protocol,
}
use distributed_queue_system.ExecServer.Words.{words, split, add_word}
use distributed_queue_system.ExecServer.Life.{Shows, job_end_shown}
use distributed_queue_system.ExecServer.Main.{
  Turn, Shift, typed_jobs, sent_by, exec_main, closed_socket, exec_main_session,
}
use distributed_queue_system.ExecServer.Child.{
  no_host, refused, executes, exits, out_name, err_name, consume_job, child_status,
}
use distributed_queue_system.ExecServer.Child.Sample.{willing, own, root_dir}
use distributed_queue_system.ExecServer.Child.Delivery.{job_process, consume_job_delivered}
use distributed_queue_system.ExecServer.Child.Interactive.{talking_process, consume_job_connected}
use distributed_queue_system.ExecServer.Child.Logs.{log_names_apart}
use distributed_queue_system.ExecServer.Child.Failures.{forked_round, consume_job_unreached}

two_words : words (codes "ls -l") ≢ []
unfolding words split add_word
two_words e = cc

consume_job_delivered_example :
    consume_job willing
      (job_message blank
        (record (no_inter_job env (get_args_submit blank (codes "ls -l") root_dir)) { id = 7 }))
      own
    ≡ executes (job_process 7 root_dir) (codes "ls" ∷ codes "-l" ∷ [])
unfolding words split add_word
consume_job_delivered_example =
    consume_job_delivered env blank blank (codes "ls -l") root_dir 7 willing own (omega arith)
      (omega arith) (omega arith) (ground arith) (ground arith) two_words
      (record {
        out_opens = refl;
        err_opens = refl;
        null_opens = refl;
        dup_out = refl;
        dup_err = refl;
        dup_in = refl;
        changes_dir = refl;
        runs = refl;
      })

consume_job_connected_example :
    consume_job willing
      (job_message blank
        (record (inter_job env (get_args_submit_int blank (codes "ls -l") root_dir 16777343 4000)) {
          id = 7;
        }))
      own
    ≡ executes (talking_process 16777343 4000 root_dir) (codes "ls" ∷ codes "-l" ∷ [])
unfolding words split add_word
consume_job_connected_example =
    consume_job_connected env blank blank (codes "ls -l") root_dir 16777343 4000 7 willing own
      (omega arith) (omega arith) (omega arith) (omega arith) (omega arith) (omega arith)
      (ground arith) (ground arith) two_words
      (record {
        reaches = refl;
        dup_out = refl;
        dup_err = refl;
        dup_in = refl;
        changes_dir = refl;
        runs = refl;
      })

log_names_apart_example :
    ((out_name 3 ≡ out_name 30) ⊎ (err_name 3 ≡ err_name 30) → ◌≡◌ {A = ℕ} 3 30)
    × (out_name 3 ≢ err_name 30)
log_names_apart_example = log_names_apart 3 30 (omega arith) (omega arith)

held_one : lookup_job 1 two_history ≡ some (entry_with 1)
unfolding lookup_job find_job find_from
held_one = refl

abbrev answers : Peer
answers = record {
  check_pkg = blank;
  check_sent = ok;
  arrives = some 0;
  ack_received = ok;
  ack = blank;
  job_sent = ok;
}

-- A round in which the job with id 1 runs and exits with 3.
abbrev one_job : Round
one_job = record {
  received = ok;
  pkg = λ i. if i == 4 then 9 else if i == 6 then 1 else 0;
  raw = blank;
  ack_sent = ok;
  other_seconds = 0;
  forked = true;
  status = exited 3;
}

consume_job_unreached_example :
    let job = inter_job env (get_args_submit_int blank (codes "ls -l") root_dir 16777343 4000) in
    let m = job_message blank (record job { id = 7 }) in
    let lost = consume_job (record willing { reached = no_host }) m own in
    (lost ≡ exits 0)
    × (exec_job (forked_round one_job m (child_status other other lost))
        ≡ returned (set_job_run blank 7 ∷ set_job_done blank 7 0 ∷ []) true)
    × (consume_job (record willing { reached = refused }) m own
        ≡ executes own (codes "ls" ∷ codes "-l" ∷ []))
unfolding words split add_word
consume_job_unreached_example =
    consume_job_unreached env blank blank (codes "ls -l") root_dir 16777343 4000 7 willing own other
      other one_job (omega arith) (omega arith) (omega arith) (omega arith) (omega arith)
      (ground arith) two_words refl

job_end_shown_example :
    (out : List Msg) × (s' : MainServer) × (exec_job one_job ≡ returned out true)
    × Shows (λ i. env) (λ i. answers) env blank 1 (omega arith) out two_jobs s' finished 3
unfolding job_id_of
job_end_shown_example =
    job_end_shown (λ i. env) (λ i. answers) env blank 1 (omega arith) one_job two_jobs
      (entry_with 1) two_jobs-IsSound refl held_one (finished, 3) refl (omega arith)

abbrev quiet_turn : Turn
quiet_turn = record { raw = blank; sent = ok; rounds = one_job ∷ [] }

one_shift_serves :
    job_request blank ok (one_job ∷ [])
    ≡ returned (set_job_req blank ∷ set_job_run blank 1 ∷ set_job_done blank 1 3 ∷ []) true
unfolding job_request exec_server_protocol exec_job father_job_routine job_id_of
one_shift_serves = refl

abbrev one_shift : Shift
one_shift = record {
  turn = quiet_turn;
  out = set_job_req blank ∷ set_job_run blank 1 ∷ set_job_done blank 1 3 ∷ [];
  serves = one_shift_serves;
}

exec_main_session_example :
    exec_main (quiet_turn ∷ quiet_turn ∷ []) (codes "job" ++ 10 ∷ (codes "stop" ++ 10 ∷ []))
    ≡ record {
      sent =
          set_job_req blank
          ∷ set_job_run blank 1
          ∷ set_job_done blank 1 3
          ∷ set_closed_connection_exec_server blank
          ∷ [];
      bad_commands = 0;
      input = [];
      standing = closed_socket;
    }
unfolding typed_jobs sent_by
exec_main_session_example = exec_main_session (one_shift ∷ []) quiet_turn [] []
