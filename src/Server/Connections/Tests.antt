-- ===== src/Server/Connections/Tests.antt =====
-- Connections to a server with two waiting jobs.
use distributed_queue_system.Base.{◌≡◌, refl, [], ◌∷◌, some, arith}
use distributed_queue_system.History.{lookup_job, find_job, find_from}
use distributed_queue_system.Proto.Setters.{set_unsubmit_client, set_job_req}
use distributed_queue_system.Transport.{ok}
use distributed_queue_system.Server.Reply.{Peer}
use distributed_queue_system.Server.Sample.{
  entry_with, two_history, two_jobs, blank, env, two_jobs-IsSound,
}
use distributed_queue_system.Server.Connections.{Visit, client_connection, exec_serv_connection}
use distributed_queue_system.Server.Connections.Laws.{
  LeavesSound, client_connection-LeavesSound, exec_serv_connection-LeavesSound,
}

abbrev late_peer : Peer
late_peer = record {
  check_pkg = blank;
  check_sent = ok;
  arrives = some 6;
  ack_received = ok;
  ack = blank;
  job_sent = ok;
}

-- Another thread reads a clock, and changes nothing; then job 1 is taken back.
abbrev taken_back : Visit
taken_back = record {
  env = env;
  peer = late_peer;
  received = ok;
  pkg = set_unsubmit_client blank 1;
  meanwhile = λ s. record s { queue2get = 5 };
}

client_connection-LeavesSound_example : LeavesSound (client_connection (taken_back ∷ []) two_jobs)
client_connection-LeavesSound_example =
    client_connection-LeavesSound (taken_back ∷ []) two_jobs two_jobs-IsSound (
      λ v. record {
        queue_valid = v.queue_valid;
        history_valid = v.history_valid;
        owned = v.owned;
        queue_idx = v.queue_idx;
      },
      record { room = omega arith; fresh = refl },
      λ out s' e. tt,
    )

held_zero : lookup_job 0 two_history ≡ some (entry_with 0)
unfolding lookup_job find_job find_from
held_zero = refl

-- A job is asked for, and put back.
abbrev asks : Visit
asks = record taken_back { pkg = set_job_req blank; meanwhile = λ s. s }

exec_serv_connection-LeavesSound_example : LeavesSound (exec_serv_connection (asks ∷ []) two_jobs)
exec_serv_connection-LeavesSound_example =
    exec_serv_connection-LeavesSound (asks ∷ []) two_jobs two_jobs-IsSound (
      λ v. v,
      record { room = omega arith; held = λ n job h l. ground (arith, held_zero) },
      λ out s' e. tt,
    )
