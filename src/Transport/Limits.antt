-- ===== src/Transport/Limits.antt =====
-- recvMsg trusts the size in the header.
use Prim.Native.Nat.{min}
use distributed_queue_system.Base.{
  ℕ, ◌+◌, ◌≤◌, ◌<◌, ◌≡◌, ap, ◌∙◌, Bool, true, false, List, ◌∷◌, ◌++◌, arith, length, length-append,
  ◌⊎◌,
}
use distributed_queue_system.Proto.Sizeof
use distributed_queue_system.Proto.Memory.{Msg, load_bytes, store_bytes, length-load_bytes}
use distributed_queue_system.Proto.Getters.{get_size8}
use distributed_queue_system.Transport.{
  overrun, Event, count, Received, recv_loop, recv_msg, sub_size,
}
use distributed_queue_system.Transport.Receive.{Agree-get_size8}
use distributed_queue_system.Transport.Receive.Rounds.{recv_loop-round, Agree-store_bytes}

-- A round that gets more bytes than the message has room for.
recv_loop-overrun :
    (m : Msg) (to_recv ptr n : ℕ) (header_recvd : Bool) (stream : List ℕ) (events : List Event)
    → 0 < to_recv
    → Sizeof.msg < ptr + min n (min to_recv (length stream))
    → ptr ≤ Sizeof.msg
    → (recv_loop m to_recv ptr header_recvd stream (count n ∷ events)).outcome ≡ overrun
unfolding recv_loop
recv_loop-overrun m to_recv ptr n header_recvd stream events p h q = ground arith

recv_loop-bad_header :
    (m sent : Msg) (n : ℕ) (body : List ℕ) (events : List Event)
    → (get_size8 sent < Sizeof.header) ⊎ (Sizeof.msg < get_size8 sent)
    → Sizeof.msg ≤ n
    → Sizeof.msg ≤ length body
    → (recv_loop m Sizeof.header 0 false
        (load_bytes sent 0 Sizeof.header ++ body)
        (count Sizeof.header ∷ count n ∷ events)).outcome
      ≡ overrun
recv_loop-bad_header m sent n body events bad hn hb =
    ap (λ (r : Received). r.outcome)
      (recv_loop-round m sent Sizeof.header 0 0 Sizeof.header false body (count n ∷ events)
        (omega arith) (omega arith) (omega arith))
    ∙ recv_loop-overrun m' (sub_size (get_size8 m') Sizeof.header) Sizeof.header n true
        (load_bytes sent 5 0 ++ body) events (omega (arith, size))
        (omega (arith, size, length-append (load_bytes sent 5 0) body, length-load_bytes sent 5 0))
        (omega arith)
  where
    m' : Msg
    m' = store_bytes m 0 (load_bytes sent 0 5)

    size : get_size8 m' ≡ get_size8 sent
    size =
        Agree-get_size8 m' sent 5 (omega arith)
          (Agree-store_bytes m sent 0 5 (λ i lt. absurd (omega arith)))

-- A header whose size is below 5 or above 525, with 525 bytes behind it that come at once,
-- makes recvMsg write past the end of the message.
pub recv_msg_overrun :
    (m sent : Msg) (n : ℕ) (body : List ℕ) (events : List Event)
    → (get_size8 sent < Sizeof.header) ⊎ (Sizeof.msg < get_size8 sent)
    → Sizeof.msg ≤ n
    → Sizeof.msg ≤ length body
    → (recv_msg m
        (load_bytes sent 0 Sizeof.header ++ body)
        (count Sizeof.header ∷ count n ∷ events)).outcome
      ≡ overrun
unfolding recv_msg
recv_msg_overrun = recv_loop-bad_header
