-- ===== src/Transport/Tests.antt =====
-- Tests of the transport, and its theorems at a concrete message.
use distributed_queue_system.Base.{
  ℕ, ◌≡◌, refl, List, [], ◌∷◌, ◌++◌, map, arith, inl, ◌==◌, if◌then◌else◌, zero, suc,
}
use distributed_queue_system.Proto.Memory.{Msg, load_bytes, store_bytes}
use distributed_queue_system.Transport.{
  returns, overrun, ok, count, interrupted, send_msg, recv_msg,
}
use distributed_queue_system.Transport.Send.{send_msg_interrupted}
use distributed_queue_system.Transport.Receive.{recv_msg-send_msg}
use distributed_queue_system.Transport.Receive.Rounds.{Reassembled}
use distributed_queue_system.Transport.Limits.{recv_msg_overrun}

abbrev blank : Msg
blank i = 0

-- The seven bytes of an unsubmit request for job 3.
abbrev request : Msg
request i =
    if i == 1
    then 7
    else if i == 2
    then 128
    else if i == 3
    then 1
    else if i == 4
    then 7
    else if i == 6
    then 3
    else 0

send_msg_runs :
    send_msg request (count 4 ∷ count 3 ∷ []) ≡ (0 ∷ 7 ∷ 128 ∷ 1 ∷ 7 ∷ 0 ∷ 3 ∷ [], returns ok)
unfolding send_msg load_bytes
send_msg_runs = refl

-- Interrupted after 4 bytes, the byte 1 goes out twice.
send_msg_repeats :
    send_msg request (count 4 ∷ interrupted ∷ count 4 ∷ [])
    ≡ (0 ∷ 7 ∷ 128 ∷ 1 ∷ 1 ∷ 7 ∷ 0 ∷ 3 ∷ [], returns ok)
unfolding send_msg load_bytes
send_msg_repeats = refl

recv_msg_runs :
    (recv_msg blank
      (0 ∷ 7 ∷ 128 ∷ 1 ∷ 7 ∷ 0 ∷ 3 ∷ 9 ∷ [])
      (count 2 ∷ count 9 ∷ count 9 ∷ [])).stream
    ≡ 9 ∷ []
unfolding recv_msg store_bytes
recv_msg_runs = refl

recv_msg-send_msg_example :
    let (wire, outcome) = send_msg request (count 4 ∷ count 3 ∷ []) in
    (outcome ≡ returns ok)
    × Reassembled request 7
        (9 ∷ [])
        (recv_msg blank (wire ++ 9 ∷ []) (map count (1 ∷ 1 ∷ 1 ∷ 1 ∷ 1 ∷ 1 ∷ 1 ∷ [])))
recv_msg-send_msg_example =
    recv_msg-send_msg blank request (4 ∷ 3 ∷ []) (1 ∷ 1 ∷ 1 ∷ 1 ∷ 1 ∷ 1 ∷ 1 ∷ []) (9 ∷ [])
      (omega arith) refl (omega arith) (omega arith) (omega arith) (omega arith)

send_msg_interrupted_example :
    send_msg request (count 4 ∷ interrupted ∷ count 4 ∷ [])
    ≡ (load_bytes request 0 4 ++ load_bytes request 3 4, returns ok)
send_msg_interrupted_example =
    send_msg_interrupted request 4 (4 ∷ []) (omega arith) (omega arith) (omega arith) refl

abbrev zeros : ℕ → List ℕ
zeros zero = []
zeros (suc n) = 0 ∷ zeros n

-- A header of zeros announces the size 0.
recv_msg_overrun_example :
    (recv_msg blank (load_bytes blank 0 5 ++ zeros 525) (count 5 ∷ count 525 ∷ [])).outcome
    ≡ overrun
recv_msg_overrun_example =
    recv_msg_overrun blank blank 525 (zeros 525) [] (inl (omega arith)) (omega arith) (omega arith)
