-- ===== src/Server/Tests.antt =====
-- The main server's theorems at a server with two jobs.
use distributed_queue_system.Base.{
  ℕ, ◌≡◌, refl, true, false, List, [], ◌∷◌, ◌++◌, none, some, arith, ◌==◌, if◌then◌else◌,
}
use distributed_queue_system.Job.{free}
use distributed_queue_system.Queue.{full}
use distributed_queue_system.Queue.Remove.Loops.{Other}
use distributed_queue_system.History.{lookup_job, find_job, find_from}
use distributed_queue_system.Transport.{ok}
use distributed_queue_system.Proto.Memory.{Msg}
use distributed_queue_system.Proto.Setters.{set_job_id, set_bad_params, set_check_exec_server}
use distributed_queue_system.Server.{MainServer}
use distributed_queue_system.Server.Reply.{done, fault, Peer}
use distributed_queue_system.Server.Invariant.{IsSound, queued}
use distributed_queue_system.Server.Sample.{
  job_with, entry_with, two_queue, two_history, two_heap, two_jobs, blank, env, two_jobs-IsSound,
  two_jobs-HasRoom, two_history-IsValid,
}
use distributed_queue_system.Server.Submit.{new_job}
use distributed_queue_system.Server.Submit.Laws.{Submitted, new_job_stores}
use distributed_queue_system.Server.Dispatch.{job_message, check_server_status, send_job}
use distributed_queue_system.Server.Dispatch.Laws.{
  unchecked, send_job_sends, send_job_requeues, send_job_dangles,
}
use distributed_queue_system.Server.Unsubmit.{unsubmit}
use distributed_queue_system.Server.Unsubmit.Laws.{
  IsWaiting, Unsubmitted, DropsNewest, unsubmit_refused, unsubmit_removes, unsubmit_drops_other,
  unsubmit_faults,
}

-- A peer that does what it should, and one that is late.
abbrev ack : Msg
ack i = if i == 4 then 12 else 0

abbrev good_peer : Peer
good_peer = record {
  check_pkg = blank;
  check_sent = ok;
  arrives = some 0;
  ack_received = ok;
  ack = ack;
  job_sent = ok;
}

abbrev late_peer : Peer
late_peer = record good_peer { arrives = some 6 }

-- The same server with an empty queue, a full one, and one that goes round the array's end.
abbrev idle_server : MainServer
idle_server = record two_jobs { queue = λ i. record two_queue { put_idx = 0 } }

abbrev full_server : MainServer
full_server = record two_jobs {
  queue = λ i. record two_queue { put_idx = 15; state = full };
  heap = λ p. some (job_with 1);
}

full_server-IsSound : IsSound full_server
full_server-IsSound = record {
  queue_valid = ground arith;
  history_valid = two_history-IsValid;
  owned = record { live = ground arith; distinct = ground arith };
  queue_idx = λ i entry e. ground arith;
}

abbrev wrapped_server : MainServer
wrapped_server = record two_jobs {
  queue = λ i. record two_queue { put_idx = 16; get_idx = 14 };
  heap = λ p. some (job_with 1);
}

wrapped_server-IsSound : IsSound wrapped_server
wrapped_server-IsSound = record {
  queue_valid = ground arith;
  history_valid = two_history-IsValid;
  owned = record { live = ground arith; distinct = ground arith };
  queue_idx = λ i entry e. ground arith;
}

-- A server whose history holds nothing of the job that its queue holds.
abbrev forgetful_server : MainServer
forgetful_server = record idle_server {
  history = record { job_array = λ i. none; history_putidx = 0 };
  queue = λ i. record two_queue { put_idx = 1 };
}

forgetful_server-IsSound : IsSound forgetful_server
forgetful_server-IsSound = record {
  queue_valid = ground arith;
  history_valid = record {
    slot = λ i job b e. ground arith;
    filled = λ i b lt. ground arith;
    unused = λ i le. refl;
  };
  owned = record { live = ground arith; distinct = ground arith };
  queue_idx = λ i entry e. ground arith;
}

new_job_stores_example :
    (s' : MainServer) × (new_job env (job_with 9) two_jobs ≡ done (set_job_id blank 2 ∷ []) true s')
    × Submitted env (job_with 9) two_jobs s'
new_job_stores_example =
    new_job_stores env (job_with 9) two_jobs two_jobs-IsSound two_jobs-HasRoom refl (omega arith)

check_good : check_server_status good_peer ≡ true
unfolding check_server_status
check_good = refl

check_late : check_server_status late_peer ≡ false
unfolding check_server_status
check_late = refl

send_job_sends_example :
    (s' : MainServer) × (send_job env good_peer two_jobs
      ≡ done (set_check_exec_server blank ∷ job_message blank (job_with 0) ∷ []) true s')
    × IsSound s'
    × (100 ∷ 101 ∷ [] ≡ 100 ∷ queued s')
    × (s'.heap ≡ free two_heap 100)
    × (s'.history ≡ two_history)
send_job_sends_example =
    send_job_sends env good_peer two_jobs (job_with 0) two_jobs-IsSound (omega arith) refl
      check_good refl

held_zero : lookup_job 0 two_history ≡ some (entry_with 0)
unfolding lookup_job find_job find_from
held_zero = refl

send_job_requeues_example :
    (out : List Msg) × (s' : MainServer) × (rest : List ℕ) × (send_job env late_peer two_jobs
      ≡ done out false s')
    × IsSound s'
    × (100 ∷ 101 ∷ [] ≡ 100 ∷ rest)
    × (queued s' ≡ rest ++ 100 ∷ [])
    × (s'.heap ≡ two_heap)
send_job_requeues_example =
    send_job_requeues env late_peer two_jobs (job_with 0) two_jobs-IsSound (omega arith) refl
      (entry_with 0) (unchecked check_late) (omega arith) held_zero

forgotten : lookup_job 0 forgetful_server.history ≡ none
unfolding lookup_job find_job find_from
forgotten = refl

send_job_dangles_example :
    (out : List Msg) × (s' : MainServer) × (rest : List ℕ) × (send_job env late_peer
        forgetful_server
      ≡ done out false s')
    × (100 ∷ [] ≡ 100 ∷ rest)
    × (queued s' ≡ rest ++ 100 ∷ [])
    × (s'.heap 100 ≡ none)
send_job_dangles_example =
    send_job_dangles env late_peer forgetful_server (job_with 0) forgetful_server-IsSound
      (omega arith) refl (unchecked check_late) (omega arith) forgotten

held_one : lookup_job 1 two_history ≡ some (entry_with 1)
unfolding lookup_job find_job find_from
held_one = refl

not_held : lookup_job 5 two_history ≡ none
unfolding lookup_job find_job find_from
not_held = refl

one_IsWaiting : IsWaiting 1 two_jobs
one_IsWaiting = record { entry = entry_with 1; held = held_one; waits = refl }

five_not_IsWaiting : ¬ IsWaiting 5 two_jobs
five_not_IsWaiting w = ground (arith, w.held, not_held)

unsubmit_refused_example : unsubmit env 5 two_jobs ≡ done (set_bad_params blank ∷ []) true two_jobs
unsubmit_refused_example = unsubmit_refused env 5 two_jobs two_jobs-IsSound five_not_IsWaiting

zero_Other : Other 1 two_heap 100
zero_Other = record { job = job_with 0; live = refl; other = omega arith }

unsubmit_removes_example :
    (s' : MainServer) × Unsubmitted env 1 two_jobs two_jobs-IsSound one_IsWaiting s'
    × (queued s' ≡ 100 ∷ [])
    × (s'.heap ≡ free two_heap 101)
unsubmit_removes_example =
    unsubmit_removes env 1 two_jobs two_jobs-IsSound one_IsWaiting (100 ∷ []) [] 101 (job_with 1)
      (omega arith) refl (zero_Other, tt) refl refl

-- A sendJob has job 1, and job 0 is in the queue.
abbrev in_flight : MainServer
in_flight = record two_jobs { queue = λ i. record two_queue { put_idx = 1 } }

in_flight-IsSound : IsSound in_flight
in_flight-IsSound = record {
  queue_valid = ground arith;
  history_valid = two_history-IsValid;
  owned = record { live = ground arith; distinct = ground arith };
  queue_idx = λ i entry e. ground arith;
}

waiting : (s : MainServer) → s.history ≡ two_history → IsWaiting 1 s
waiting s e = record { entry = entry_with 1; held = rw e held_one; waits = refl }

unsubmit_drops_other_example :
    DropsNewest env 1 in_flight in_flight-IsSound (waiting in_flight refl)
unsubmit_drops_other_example =
    unsubmit_drops_other env 1 in_flight in_flight-IsSound (waiting in_flight refl) (omega arith)
      (zero_Other, tt)

unsubmit_faults_example : unsubmit env 1 full_server ≡ fault
unsubmit_faults_example =
    unsubmit_faults env 1 full_server full_server-IsSound (waiting full_server refl) (omega arith)
      refl
