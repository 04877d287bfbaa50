-- ===== src/ExecServer/Protocol.antt =====
-- exec_server_protocol: checks are answered, a job is run and reported.
use distributed_queue_system.Base.{
  ◌≡◌, refl, List, [], ◌∷◌, ◌++◌, map, arith, ap, sym, ◌∙◌, All, ◌⊎◌,
}
use mathlib.Core.List.{append_assoc}
use distributed_queue_system.Transport.{ok}
use distributed_queue_system.Proto.{type_code, sendjob_nointer, sendjob_inter, ch_exec_ser}
use distributed_queue_system.Proto.Memory.{Msg}
use distributed_queue_system.Proto.Getters.{get_type}
use distributed_queue_system.Proto.Setters.{set_check_exec_server_ack}
use distributed_queue_system.ExecServer.{
  Round, Served, returned, blocked, aborted, after, exec_job, exec_server_protocol,
}

-- A round in which a check arrives and its answer can be sent.
pub record IsCheck (round : Round) : Type 0 where
  pub arrived : round.received ≡ ok
  pub asks : get_type round.pkg ≡ type_code ch_exec_ser
  pub sent : round.ack_sent ≡ ok

-- A round in which a job arrives.
pub record IsJob (round : Round) : Type 0 where
  pub arrived : round.received ≡ ok
  pub carries :
      (get_type round.pkg ≡ type_code sendjob_nointer)
      ⊎ (get_type round.pkg ≡ type_code sendjob_inter)

abbrev pub acks : List Round → List Msg
acks = map (λ round. set_check_exec_server_ack round.raw)

after-after : (a b : List Msg) (r : Served) → after a (after b r) ≡ after (a ++ b) r
after-after a b (returned out flag) = ap (λ k. returned k flag) (sym (append_assoc a b out))
after-after a b (blocked out) = ap blocked (sym (append_assoc a b out))
after-after a b (aborted out) = ap aborted (sym (append_assoc a b out))

after-nil : (r : Served) → after [] r ≡ r
after-nil (returned out flag) = refl
after-nil (blocked out) = refl
after-nil (aborted out) = refl

exec_server_protocol_check :
    (check : Round) (rounds : List Round)
    → IsCheck check
    → exec_server_protocol (check ∷ rounds)
      ≡ after (set_check_exec_server_ack check.raw ∷ []) (exec_server_protocol rounds)
unfolding exec_server_protocol
exec_server_protocol_check check rounds c = ground (arith, c.arrived, c.asks, c.sent)

pub exec_server_protocol_now :
    (job : Round) (later : List Round)
    → IsJob job
    → exec_server_protocol (job ∷ later) ≡ exec_job job
unfolding exec_server_protocol
exec_server_protocol_now job later j = ground (arith, j.arrived, j.carries)

-- However many checks come first, each is answered by an ACK, if it can be sent, and the job
-- that follows is run and reported as if it had come alone; nothing after it is read.
pub exec_server_protocol_job :
    (checks : List Round) (job : Round) (later : List Round)
    → All IsCheck checks
    → IsJob job
    → exec_server_protocol (checks ++ job ∷ later) ≡ after (acks checks) (exec_job job)
exec_server_protocol_job [] job later c j =
    exec_server_protocol_now job later j ∙ sym (after-nil (exec_job job))
exec_server_protocol_job (check ∷ checks) job later c j =
    exec_server_protocol_check check (checks ++ job ∷ later) c.0
    ∙ (ap (after (set_check_exec_server_ack check.raw ∷ []))
          (exec_server_protocol_job checks job later c.1 j)
        ∙ after-after (set_check_exec_server_ack check.raw ∷ []) (acks checks) (exec_job job))
