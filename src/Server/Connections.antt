-- ===== src/Server/Connections.antt =====
-- The loops of attendClient and attendExecServ over the messages of one connection, and the loops of
-- threadNewClients and threadNewExecServ over the connections.
pub mod Laws
mod Tests
use distributed_queue_system.Base.{
  ℕ, ◌+◌, Bool, true, false, List, [], ◌∷◌, ◌++◌, Option, none, some, if◌then◌else◌,
}
use distributed_queue_system.Proto.Memory.{Msg}
use distributed_queue_system.Transport.{Ret}
use distributed_queue_system.Server.{MainServer}
use distributed_queue_system.Server.Reply.{Result, done, waits, fault, Env, Peer}
use distributed_queue_system.Server.Attend.{attend_client, attend_exec_serv}

-- One round: what the handler is given, what recvMsg returns and leaves in the message, and what the
-- other threads do to the server before the handler runs.
pub record Visit : Type 0 where
  pub env : Env
  pub peer : Peer
  pub received : Ret
  pub pkg : Msg
  pub meanwhile : MainServer → MainServer

-- How a connection stands: its socket is closed and its ThreadArg_t freed, it waits for a message,
-- its thread waits on a condition variable, or the program is gone.
pub data Standing : Type 0 where
  ended going waiting crashed : Standing

-- The messages that were sent, the server that is left, and how the connection stands.
pub record Connection : Type 0 where
  pub replies : List Msg
  pub server : Option MainServer
  pub standing : Standing

-- What a handler's end means for the loop.
abbrev pub proceed : Result → (MainServer → Connection) → Connection
proceed (done out true s) later =
    let rest = later s in record rest { replies = out ++ rest.replies }
proceed (done out false s) later = record { replies = out; server = some s; standing = ended }
proceed (waits out s) later = record { replies = out; server = some s; standing = waiting }
proceed fault later = record { replies = []; server = none; standing = crashed }

-- The loop with the body `attend`.
unfoldable pub connection :
    (attend : Visit → MainServer → Result) → List Visit → MainServer → Connection
connection attend [] s = record { replies = []; server = some s; standing = going }
connection attend (visit ∷ visits) s =
    proceed (attend visit (visit.meanwhile s)) (connection attend visits)

abbrev pub attend_client_once : Visit → MainServer → Result
attend_client_once visit s = attend_client visit.env visit.received visit.pkg s

abbrev pub attend_exec_serv_once : Visit → MainServer → Result
attend_exec_serv_once visit s = attend_exec_serv visit.env visit.peer visit.received visit.pkg s

-- attendClient
unfoldable pub client_connection : List Visit → MainServer → Connection
unfolding connection
client_connection visits s = connection attend_client_once visits s

-- attendExecServ
unfoldable pub exec_serv_connection : List Visit → MainServer → Connection
unfolding connection
exec_serv_connection visits s = connection attend_exec_serv_once visits s

-- What accept returns, a socket or none, and whether pthread_create makes a thread for it.
pub record Arrival : Type 0 where
  pub socket : Option ℕ
  pub created : Bool

-- What becomes of a socket: a thread attends it, or it is closed.
pub data Handed : Type 0 where
  attended : (socket : ℕ) → Handed
  turned_away : (socket : ℕ) → Handed

-- What the loop did, how many ThreadArg_t it lost, and whether it ended.
pub record Accepted : Type 0 where
  pub handed : List Handed
  pub lost_args : ℕ
  pub over : Bool

-- threadNewClients: a ThreadArg_t for which there is no thread is not freed.
unfoldable pub thread_new_clients : List Arrival → Accepted
thread_new_clients [] = record { handed = []; lost_args = 0; over = false }
thread_new_clients (arrival ∷ arrivals) =
    let rest = thread_new_clients arrivals in
    elim arrival.socket [
      | none ↦ record { handed = []; lost_args = 0; over = true }
      | some socket ↦
          if arrival.created
          then record rest { handed = attended socket ∷ rest.handed }
          else record rest {
            handed = turned_away socket ∷ rest.handed;
            lost_args = 1 + rest.lost_args;
          }
    ]

-- threadNewExecServ, which has the same body.
unfoldable pub thread_new_exec_serv : List Arrival → Accepted
unfolding thread_new_clients
thread_new_exec_serv arrivals = thread_new_clients arrivals
