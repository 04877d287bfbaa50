-- ===== src/Server/Attend/Tests.antt =====
-- The switches of main_server.c at a server with two jobs.
use distributed_queue_system.Base.{◌≡◌, refl, some}
use distributed_queue_system.History.{lookup_job, find_job, find_from}
use distributed_queue_system.Transport.{ok}
use distributed_queue_system.Server.Reply.{Peer}
use distributed_queue_system.Server.Sample.{entry_with, two_history, blank}

abbrev late_peer : Peer
late_peer = record {
  check_pkg = blank;
  check_sent = ok;
  arrives = some 6;
  ack_received = ok;
  ack = blank;
  job_sent = ok;
}

held_zero : lookup_job 0 two_history ≡ some (entry_with 0)
unfolding lookup_job find_job find_from
held_zero = refl
