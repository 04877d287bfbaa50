-- ===== src/ExecServer/Tests.antt =====
-- The theorems on exec_server.c at concrete messages.
use distributed_queue_system.Base.{◌≡◌, refl, true, [], ◌∷◌, some, ◌==◌, if◌then◌else◌, inl}
use distributed_queue_system.History.{lookup_job, find_job, find_from}
use distributed_queue_system.Transport.{ok}
use distributed_queue_system.Server.Sample.{entry_with, two_history, blank}
use distributed_queue_system.ExecServer.{Round, exited, exec_job, exec_server_protocol, after}
use distributed_queue_system.ExecServer.Protocol.{acks, exec_server_protocol_job}
use distributed_queue_system.ExecServer.Arguments.{args, tokens}

-- A check and a job, in that order.
abbrev check : Round
check = record {
  received = ok;
  pkg = λ i. if i == 4 then 11 else 0;
  raw = blank;
  ack_sent = ok;
  other_seconds = 0;
  forked = true;
  status = exited 0;
}

abbrev job : Round
job = record check { pkg = λ i. if i == 4 then 9 else 0 }

exec_server_protocol_job_example :
    exec_server_protocol (check ∷ check ∷ job ∷ check ∷ [])
    ≡ after (acks (check ∷ check ∷ [])) (exec_job job)
exec_server_protocol_job_example =
    exec_server_protocol_job (check ∷ check ∷ []) job (check ∷ [])
      (
        record { arrived = refl; asks = refl; sent = refl },
        (record { arrived = refl; asks = refl; sent = refl }, tt),
      )
      (record { arrived = refl; carries = inl refl })

args_ls :
    args (32 ∷ 108 ∷ 115 ∷ 32 ∷ 45 ∷ 108 ∷ 10 ∷ 0 ∷ 7 ∷ [])
    ≡ (108 ∷ 115 ∷ []) ∷ (45 ∷ 108 ∷ []) ∷ []
unfolding args tokens
args_ls = refl

held_one : lookup_job 1 two_history ≡ some (entry_with 1)
unfolding lookup_job find_job find_from
held_one = refl
