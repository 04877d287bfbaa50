-- ===== src/Transport/Receive.antt =====
-- recvMsg puts a message together again.
pub mod Rounds
use Prim.Native.Nat.{min}
use distributed_queue_system.Base.{
  ℕ, zero, suc, ◌+◌, ◌-◌, ◌≤◌, ◌<◌, ◌≡◌, refl, ap, ap₂, ◌∙◌, sym, Bool, true, false, not, ◌&&◌,
  List, [], ◌∷◌, ◌++◌, map, arith, length, length-append, take, drop, take-append, drop-append, All,
  ◌==◌, lt-or-le, inl, inr, ◌⊎◌, subst,
}
use mathlib.Core.List.{append_assoc}
use distributed_queue_system.Proto.Sizeof
use distributed_queue_system.Proto.Memory.{
  Msg, store_bytes, load_bytes, load_bytes-append, length-load_bytes, store_bytes-below,
}
use distributed_queue_system.Proto.Getters.{get_size8}
use distributed_queue_system.Transport.{
  ok, returns, Event, count, sub_size, Received, recv_loop, recv_msg, send_msg,
}
use distributed_queue_system.Transport.Send.{Positive, sum, send_msg_chunks}
use Rounds.{
  Agree, Agree-store_bytes, Reassembled, recv_loop-round, continue_with-rest, continue_with-header,
  recv_loop-done,
}

-- With the header there, the rest of the message follows.
recv_loop-body :
    (m sent : Msg) (ns : List ℕ) (want ptr : ℕ) (rest : List ℕ)
    → All Positive ns
    → want ≤ length ns
    → ptr + want ≤ Sizeof.msg
    → Agree m sent ptr
    → Reassembled sent
        (ptr + want)
        rest
        (recv_loop m want ptr true (load_bytes sent ptr want ++ rest) (map count ns))
unfolding load_bytes
recv_loop-body m sent ns zero ptr rest p l h a =
    rw (recv_loop-done m ptr true rest (map count ns))
      (record { returned = refl; message = λ i lt. a i (omega arith); remains = refl })
recv_loop-body m sent [] (suc w) ptr rest p l h a = absurd (omega arith)
recv_loop-body m sent (n ∷ ns) (suc w) ptr rest p l h a =
    subst (Reassembled sent (ptr + suc w) rest) (sym step) (
      subst (λ z. Reassembled sent z rest next) size
        (recv_loop-body (store_bytes m ptr (load_bytes sent ptr k)) sent ns (suc w - k) (ptr + k)
          rest p.1 (omega arith) (omega arith) (Agree-store_bytes m sent ptr k a)))
  where
    k : ℕ
    k = min n (suc w)

    next : Received
    next =
        recv_loop (store_bytes m ptr (load_bytes sent ptr k)) (suc w - k) (ptr + k) true
          (load_bytes sent (ptr + k) (suc w - k) ++ rest) (map count ns)

    size : ptr + k + (suc w - k) ≡ ptr + suc w
    size = omega arith

    step :
        recv_loop m (suc w) ptr true (load_bytes sent ptr (suc w) ++ rest) (count n ∷ map count ns)
        ≡ next
    step =
        ap
          (λ z.
            recv_loop m (suc w) ptr true (load_bytes sent ptr z ++ rest) (count n ∷ map count ns))
          {x = suc w} {y = suc w + 0} (omega arith)
        ∙ (recv_loop-round m sent (suc w) 0 ptr n true rest (map count ns) (omega arith) p.0
              (omega arith)
            ∙ (continue_with-rest m (suc w) ptr k true (load_bytes sent ptr k)
                  (load_bytes sent (ptr + k) (suc w + 0 - k) ++ rest) (map count ns) (inl refl)
                ∙ ap
                    (λ z.
                      recv_loop (store_bytes m ptr (load_bytes sent ptr k)) (suc w - k) (ptr + k)
                        true (load_bytes sent (ptr + k) z ++ rest) (map count ns))
                    {x = suc w + 0 - k} (omega arith)))

pub Agree-get_size8 : (m sent : Msg) (n : ℕ) → 2 ≤ n → Agree m sent n → get_size8 m ≡ get_size8 sent
Agree-get_size8 m sent n h a = ground (arith, a 0 (omega arith), a 1 (omega arith))

-- The header comes in one round or in several, and the rest of the message after it.
recv_loop-message :
    (m sent : Msg) (ns : List ℕ) (want ptr body : ℕ) (rest : List ℕ)
    → All Positive ns
    → 0 < want
    → ptr + want ≡ Sizeof.header
    → Sizeof.header + body ≡ get_size8 sent
    → get_size8 sent ≤ Sizeof.msg
    → want + body ≤ length ns
    → Agree m sent ptr
    → Reassembled sent
        (get_size8 sent)
        rest
        (recv_loop m want ptr false (load_bytes sent ptr (want + body) ++ rest) (map count ns))
recv_loop-message m sent [] want ptr body rest p w e b s l a = absurd (omega arith)
recv_loop-message m sent (n ∷ ns) want ptr body rest p w e b s l a =
    subst (Reassembled sent (get_size8 sent) rest)
      (sym (recv_loop-round m sent want body ptr n false rest (map count ns) w p.0 (omega arith)))
      (elim (lt-or-le n want) [
        | inl lt ↦
            subst (Reassembled sent (get_size8 sent) rest)
              (sym (
                continue_with-rest m want ptr k false bytes
                  (load_bytes sent (ptr + k) (want + body - k) ++ rest) (map count ns)
                  (inr (omega arith))
                ∙ ap
                    (λ z.
                      recv_loop (store_bytes m ptr bytes) (want - k) (ptr + k) false
                        (load_bytes sent (ptr + k) z ++ rest) (map count ns))
                    {x = want + body - k} {y = want - k + body} (omega arith)))
              (recv_loop-message (store_bytes m ptr bytes) sent ns (want - k) (ptr + k) body rest
                p.1 (omega arith) (omega arith) b s (omega arith) agree)
        | inr le ↦
            subst (Reassembled sent (get_size8 sent) rest)
              (sym (
                continue_with-header m sent want ptr k bytes
                  (load_bytes sent (ptr + k) (want + body - k) ++ rest) (map count ns) (omega arith)
                  (Agree-get_size8 (store_bytes m ptr bytes) sent (ptr + k) (omega arith) agree)
                  (omega arith)
                ∙ ap₂
                    (λ y z.
                      recv_loop (store_bytes m ptr bytes) y Sizeof.header true z (map count ns))
                    {x = get_size8 sent - Sizeof.header} {y = body} (omega arith)
                    (ap₂ (λ y z. load_bytes sent y z ++ rest) {x = ptr + k} {y = Sizeof.header}
                      (omega arith) (omega arith))))
              (subst
                (λ z. Reassembled sent z rest (
                  recv_loop (store_bytes m ptr bytes) body Sizeof.header true
                    (load_bytes sent Sizeof.header body ++ rest) (map count ns)))
                b
                (recv_loop-body (store_bytes m ptr bytes) sent ns body Sizeof.header rest p.1
                  (omega arith) (omega arith) (λ i lt. agree i (omega arith))))
      ])
  where
    k : ℕ
    k = min n want

    bytes : List ℕ
    bytes = load_bytes sent ptr (min n want)

    agree : Agree (store_bytes m ptr bytes) sent (ptr + k)
    agree = Agree-store_bytes m sent ptr k a

-- Whatever pieces a message comes in, recvMsg returns 1 with its bytes in the memory and leaves what
-- follows it on the stream, if its size is that of a header at least and of `Msg` at most.
pub recv_msg_reassembles :
    (m sent : Msg) (ns : List ℕ) (rest : List ℕ)
    → All Positive ns
    → Sizeof.header ≤ get_size8 sent
    → get_size8 sent ≤ Sizeof.msg
    → get_size8 sent ≤ length ns
    → Reassembled sent
        (get_size8 sent)
        rest
        (recv_msg m (load_bytes sent 0 (get_size8 sent) ++ rest) (map count ns))
unfolding recv_msg
recv_msg_reassembles m sent ns rest p lo hi l =
    subst
      (λ z.
        Reassembled sent (get_size8 sent) rest
          (recv_msg m (load_bytes sent 0 z ++ rest) (map count ns)))
      {x = Sizeof.header + (get_size8 sent - Sizeof.header)} (omega arith)
      (recv_loop-message m sent ns Sizeof.header 0 (get_size8 sent - Sizeof.header) rest p
        (omega arith) (omega arith) (omega arith) hi (omega arith) (λ i lt. absurd (omega arith)))

-- A message whose size field is between 5 and 525, sent in any pieces that are not empty:
-- sendMsg returns 1, and recvMsg, reading at most so many bytes a call as it likes but at least
-- one, returns 1 with the message's bytes and leaves what follows on the wire.
pub recv_msg-send_msg :
    (m sent : Msg) (ns ks : List ℕ) (rest : List ℕ)
    → All Positive ns
    → sum ns ≡ get_size8 sent
    → All Positive ks
    → Sizeof.header ≤ get_size8 sent
    → get_size8 sent ≤ Sizeof.msg
    → get_size8 sent ≤ length ks
    → let (wire, outcome) = send_msg sent (map count ns) in
      (outcome ≡ returns ok)
      × Reassembled sent (get_size8 sent) rest (recv_msg m (wire ++ rest) (map count ks))
recv_msg-send_msg m sent ns ks rest p e q lo hi l =
    rw (send_msg_chunks sent ns p e) (refl, recv_msg_reassembles m sent ks rest q lo hi l)
