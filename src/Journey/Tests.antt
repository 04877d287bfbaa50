-- ===== src/Journey/Tests.antt =====
-- A job, `ls -l`, for which two execution servers ask a server that has just started.
use distributed_queue_system.Base.{◌≡◌, refl, true, false, [], ◌∷◌, none, some, arith, All}
use distributed_queue_system.Text.{codes}
use distributed_queue_system.Proto.{wait}
use distributed_queue_system.Proto.Memory.{Msg}
use distributed_queue_system.Proto.Setters.{set_check_exec_server_ack}
use distributed_queue_system.Transport.{ok, closed, failed}
use distributed_queue_system.Server.{MainServer, main_server_init}
use distributed_queue_system.Server.Reply.{done}
use distributed_queue_system.Server.Attend.{attend_client}
use distributed_queue_system.Server.Invariant.{IsSound, queued, main_server_init-IsSound}
use distributed_queue_system.Server.Submit.Laws.{new_id}
use distributed_queue_system.Server.Sample.{blank, env}
use distributed_queue_system.Client.{
  get_args_submit, job_state_request, job_submitted, job_state, show,
}
use distributed_queue_system.ExecServer.{Round, exited, returned, exec_server_protocol}
use distributed_queue_system.ExecServer.Child.Sample.{root_dir}
use distributed_queue_system.Journey.{Attempt, check_round, all_ask, checks, never_sent}

abbrev started : MainServer
started = main_server_init blank (λ p. none)

abbrev quick : Round
quick = record {
  received = ok;
  pkg = blank;
  raw = blank;
  ack_sent = ok;
  other_seconds = 0;
  forked = true;
  status = exited 0;
}

abbrev first_try : Attempt
first_try = record {
  env = env;
  check_pkg = blank;
  request = blank;
  ack_received = ok;
  job_sent = ok;
  serving = quick;
  next = record quick { received = closed };
}

-- One that takes longer, and whose ACK can no longer be sent.
abbrev second_try : Attempt
second_try = record first_try {
  serving = record quick { ack_sent = failed; other_seconds = 2 };
  next = record quick { received = failed };
}

never_sent_example :
    (shown_id told : Msg) × (s₁ s₂ : MainServer) × (attend_client env ok
        (get_args_submit blank (codes "ls -l") root_dir)
        started
      ≡ done (shown_id ∷ []) true s₁)
    × (show shown_id ≡ job_submitted (new_id started))
    × (all_ask (first_try ∷ second_try ∷ []) s₁ ≡ (checks (first_try ∷ second_try ∷ []), some s₂))
    × All
        (λ a.
          exec_server_protocol (check_round a ∷ a.next ∷ [])
          ≡ returned (set_check_exec_server_ack a.serving.raw ∷ []) false)
        (first_try ∷ second_try ∷ [])
    × IsSound s₂
    × (queued s₂ ≡ 102 ∷ [])
    × (attend_client env ok (job_state_request blank (new_id started)) s₂
        ≡ done (told ∷ []) true s₂)
    × (show told ≡ job_state (new_id started) (some (wait, none)))
unfolding main_server_init
never_sent_example =
    never_sent env env blank blank (codes "ls -l") root_dir (first_try ∷ second_try ∷ []) started
      (main_server_init-IsSound blank (λ p. none)) (omega arith) refl refl (omega arith)
      (omega arith) ((λ e. cc), ((λ e. cc), tt))
