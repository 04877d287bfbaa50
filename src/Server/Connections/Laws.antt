-- ===== src/Server/Connections/Laws.antt =====
-- A connection keeps the server sound, and every socket is attended or closed.
use distributed_queue_system.Base.{
  ℕ, ◌+◌, ◌<◌, ◌≡◌, ◌≢◌, refl, ap, subst, Bool, true, false, List, [], ◌∷◌, ◌++◌, map, Option, none,
  some, arith, if◌then◌else◌,
}
use distributed_queue_system.Job.{Job}
use distributed_queue_system.Queue.{unsigned_mod, count}
use distributed_queue_system.History.{lookup_job}
use distributed_queue_system.Proto.Memory.{Msg}
use distributed_queue_system.Server.{MainServer}
use distributed_queue_system.Server.Reply.{Result, done, waits, fault}
use distributed_queue_system.Server.Invariant.{IsSound, HasRoom}
use distributed_queue_system.Server.Dispatch.Laws.{first}
use distributed_queue_system.Server.Attend.Keeps.{Keeps, at_end, at_wait, at_fault}
use distributed_queue_system.Server.Attend.Laws.{attend_client-Keeps, attend_exec_serv-Keeps}
use distributed_queue_system.Server.Connections.{
  Visit, Connection, proceed, connection, attend_client_once, attend_exec_serv_once,
  client_connection, exec_serv_connection, Arrival, Handed, attended, turned_away,
  thread_new_clients,
}

-- The rounds of a connection from a server on: before each of them the other threads keep the
-- server sound and leave it with what the round needs.
abbrev pub Fits :
    (Needs : Visit → MainServer → Type 0)
    → (Visit → MainServer → Result)
    → List Visit
    → MainServer
    → Type 0
Fits Needs attend [] s = Unit
Fits Needs attend (visit ∷ visits) s =
    (IsSound s → IsSound (visit.meanwhile s))
    × Needs visit (visit.meanwhile s)
    × ((out : List Msg) (s' : MainServer)
        → attend visit (visit.meanwhile s) ≡ done out true s'
        → Fits Needs attend visits s')

-- The server that a connection leaves, if it leaves one, is sound.
abbrev pub LeavesSound : Connection → Type 0
LeavesSound c = (s : MainServer) → c.server ≡ some s → IsSound s

some-IsSound : {s s' : MainServer} → IsSound s → some s ≡ some s' → IsSound s'
some-IsSound {s = s} v e =
    subst IsSound (ap (λ (o : Option MainServer). elim o [ none ↦ s | some x ↦ x ]) e) v

proceed-LeavesSound :
    (r : Result) (later : MainServer → Connection)
    → Keeps r
    → ((out : List Msg) (s : MainServer) → r ≡ done out true s → IsSound s → LeavesSound (later s))
    → LeavesSound (proceed r later)
proceed-LeavesSound (done out true s) later (at_end v) f = f out s refl v
proceed-LeavesSound (done out false s) later (at_end v) f = λ s' e. some-IsSound v e
proceed-LeavesSound (waits out s) later (at_wait v) f = λ s' e. some-IsSound v e
proceed-LeavesSound fault later at_fault f = λ s' e. cc

connection-LeavesSound :
    (Needs : Visit → MainServer → Type 0) (attend : Visit → MainServer → Result)
    → ((visit : Visit) (s : MainServer) → IsSound s → Needs visit s → Keeps (attend visit s))
    → (visits : List Visit) (s : MainServer) → IsSound s
    → Fits Needs attend visits s
    → LeavesSound (connection attend visits s)
unfolding connection
connection-LeavesSound Needs attend keeps [] s v f = λ s' e. some-IsSound v e
connection-LeavesSound Needs attend keeps (visit ∷ visits) s v (m, n, f) =
    proceed-LeavesSound (attend visit (visit.meanwhile s)) (connection attend visits)
      (keeps visit (visit.meanwhile s) (m v) n)
      (λ out s' e v'. connection-LeavesSound Needs attend keeps visits s' v' (f out s' e))

-- What a round with a client needs: counters below their last values, and a fresh block.
pub record ClientNeeds (visit : Visit) (s : MainServer) : Type 0 where
  pub room : HasRoom s
  pub fresh : s.heap visit.env.addr ≡ none

-- What a round with an execution server needs: room for putting a job back, and a history that holds
-- the job at the front.
pub record ServerNeeds (visit : Visit) (s : MainServer) : Type 0 where
  pub room : (s.queue 0).put_idx + 1 < unsigned_mod
  pub held :
      count (s.queue 0) ≢ 0
      → (job : Job) → s.heap (first s) ≡ some job
      → lookup_job job.id s.history ≢ none

-- Whatever messages a client's connection brings, and whatever the other threads do between two of
-- them, if they keep the server sound, its counters below their last values and the block for
-- the next job fresh: attendClient, whether it ended, waits or goes on, leaves a sound server.
pub client_connection-LeavesSound :
    (visits : List Visit) (s : MainServer)
    → IsSound s
    → Fits ClientNeeds attend_client_once visits s
    → LeavesSound (client_connection visits s)
unfolding client_connection
client_connection-LeavesSound =
    connection-LeavesSound ClientNeeds attend_client_once
      (λ visit s v n. attend_client-Keeps visit.env visit.received visit.pkg s v n.room n.fresh)

-- The same of attendExecServ and the connection of an execution server, if the other threads keep
-- the server sound, leave room for a job that is put back, and keep the job at the front in the
-- history.
pub exec_serv_connection-LeavesSound :
    (visits : List Visit) (s : MainServer)
    → IsSound s
    → Fits ServerNeeds attend_exec_serv_once visits s
    → LeavesSound (exec_serv_connection visits s)
unfolding exec_serv_connection
exec_serv_connection-LeavesSound =
    connection-LeavesSound ServerNeeds attend_exec_serv_once (λ visit s v n.
      attend_exec_serv-Keeps visit.env visit.peer visit.received visit.pkg s v n.room n.held)

-- A connection that accept gives, and the sockets that get no thread.
abbrev pub arrival_of : ℕ × Bool → Arrival
arrival_of (socket, created) = record { socket = some socket; created = created }

abbrev pub handed_of : ℕ × Bool → Handed
handed_of (socket, created) = if created then attended socket else turned_away socket

abbrev pub turned_away_count : List (ℕ × Bool) → ℕ
turned_away_count [] = 0
turned_away_count ((socket, created) ∷ arrivals) =
    (if created then 0 else 1) + turned_away_count arrivals

-- The connections before accept first fails: each socket is attended by a thread of its own, or
-- closed where there is none, in order; the loop ends at the failure; and one ThreadArg_t is lost
-- for each socket that was closed.
pub thread_new_clients_lem :
    (arrivals : List (ℕ × Bool)) (last : Bool) (later : List Arrival)
    → thread_new_clients
        (map arrival_of arrivals ++ record { socket = none; created = last } ∷ later)
      ≡ record {
        handed = map handed_of arrivals;
        lost_args = turned_away_count arrivals;
        over = true;
      }
unfolding thread_new_clients
thread_new_clients_lem [] last later = refl
thread_new_clients_lem ((socket, true) ∷ arrivals) last later =
    ground (arith, thread_new_clients_lem arrivals last later)
thread_new_clients_lem ((socket, false) ∷ arrivals) last later =
    ground (arith, thread_new_clients_lem arrivals last later)
