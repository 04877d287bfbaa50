-- ===== src/Transport/Returns/Tests.antt =====
-- The rounds in which sendMsg and recvMsg end, for a message of a header alone.
use distributed_queue_system.Base.{◌≡◌, [], ◌∷◌, map, arith}
use distributed_queue_system.Proto.Memory.{load_bytes}
use distributed_queue_system.Proto.Setters.{set_job_req, set_job_id}
use distributed_queue_system.Transport.{ok, closed, returns, count, send_msg, recv_msg}
use distributed_queue_system.Transport.Returns.{counts, send_msg-counts, recv_msg-ends}
use distributed_queue_system.Server.Sample.{blank}

send_msg-counts_example :
    (send_msg (set_job_req blank) (counts 5 (1 ∷ 1 ∷ 2 ∷ 9 ∷ 1 ∷ []))).1 ≡ returns ok
unfolding set_job_req
send_msg-counts_example =
    send_msg-counts (set_job_req blank) (1 ∷ 1 ∷ 2 ∷ 9 ∷ 1 ∷ []) (omega arith) (omega arith)
      (omega arith)

-- The answer with a job's id, of which the last of its seven bytes does not come.
recv_msg-ends_example :
    (recv_msg blank
      (load_bytes (set_job_id blank 3) 0 6)
      (map count (1 ∷ 1 ∷ 1 ∷ 1 ∷ 1 ∷ 1 ∷ 1 ∷ []))).outcome
    ≡ returns closed
unfolding set_job_id
recv_msg-ends_example =
    recv_msg-ends blank (set_job_id blank 3) 6 (1 ∷ 1 ∷ 1 ∷ 1 ∷ 1 ∷ 1 ∷ 1 ∷ []) (omega arith)
      (omega arith) (omega arith) (omega arith)
