-- ===== src/Server/Reply.antt =====
-- What a handler of the main server does to the outside, and what the outside gives to it.
use distributed_queue_system.Base.{ℕ, List, Bool, Option}
use distributed_queue_system.Job.{Job}
use distributed_queue_system.History.{JobHistory}
use distributed_queue_system.Proto.Memory.{Msg}
use distributed_queue_system.Server.{MainServer}
use distributed_queue_system.Transport.{Ret}

-- How a handler ends: with the messages that it handed to sendMsg, whether the connection goes on,
-- and the server; or it waits on a condition variable; or a memory access or an assertion fails.
pub data Result : Type 0 where
  done : List Msg → Bool → MainServer → Result
  waits : List Msg → MainServer → Result
  fault : Result

-- What one call is given: the stack memory of its message, the time, and what `malloc` returns for
-- the history record and for the job, at the address `addr`.
pub record Env : Type 0 where
  pub pkg : Msg
  pub now : ℕ
  pub history_block : JobHistory
  pub job_block : Job
  pub addr : ℕ

-- What select reports of the socket.
pub data Select : Type 0 where
  select_failed timeout readable : Select

-- How an execution server's socket behaves in one call of sendJob, and the stack memory of the
-- message in checkServerStatus. `arrives` is after how many seconds there is something to read, the
-- end of the connection included; `none` is for a select that fails.
pub record Peer : Type 0 where
  pub check_pkg : Msg
  pub check_sent : Ret
  pub arrives : Option ℕ
  pub ack_received : Ret
  pub ack : Msg
  pub job_sent : Ret
