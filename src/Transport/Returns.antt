-- ===== src/Transport/Returns.antt =====
-- sendMsg and recvMsg come to an end.
mod Tests
use Prim.Native.Nat.{min}
use distributed_queue_system.Base.{
  ℕ, zero, suc, ◌+◌, ◌-◌, ◌%◌, ◌^◌, ◌≤◌, ◌<◌, ◌≡◌, ◌≢◌, refl, ap, ap₂, ◌∙◌, Bool, true, false, not,
  ◌&&◌, List, [], ◌∷◌, map, arith, length, take, drop, take-append, drop-append, sym, ◌++◌, subst,
  All, ltb, ◌==◌, if◌then◌else◌, eq-or-ne, lt-or-le, Bool-cases, inl, inr,
}
use distributed_queue_system.Proto.Sizeof
use distributed_queue_system.Proto.Memory.{
  Msg, store_bytes, load_bytes, load_bytes-append, length-load_bytes,
}
use distributed_queue_system.Proto.Getters.{get_size8}
use distributed_queue_system.Transport.{
  Ret, Outcome, ok, closed, returns, pending, overrun, Event, count, sub_size, send_loop, send_msg,
  recv_loop, recv_msg, Received,
}
use distributed_queue_system.Transport.Receive.{Agree-get_size8}
use distributed_queue_system.Transport.Receive.Rounds.{
  Agree, Agree-store_bytes, continue_with, continue_with-rest, continue_with-header,
  recv_loop-continue,
}
use distributed_queue_system.Transport.Send.{Positive}

-- Rounds in which send takes the given numbers of bytes, but no more than are left.
abbrev pub counts : (left : ℕ) → List ℕ → List Event
counts left [] = []
counts left (n ∷ ns) = count (min n left) ∷ counts (left - min n left) ns

send_loop-counts :
    (m : Msg) (left ptr : ℕ) (ns : List ℕ)
    → All Positive ns
    → left ≤ length ns
    → left < 2 ^ 64
    → (send_loop m left ptr (counts left ns)).1 ≡ returns ok
unfolding send_loop
send_loop-counts m left ptr [] p le lt = ground (arith, le)
send_loop-counts m left ptr (n ∷ ns) (p, ps) le lt = elim (eq-or-ne left 0) [
  | inl z ↦ ground (arith, z)
  | inr nz ↦
      let k = min n left in
      let same : sub_size left k ≡ left - k = omega arith in
      ground (
        arith,
        nz,
        p,
        ap (λ l. (send_loop m l (ptr + k) (counts (left - k) ns)).1) same,
        send_loop-counts m (left - k) (ptr + k) ns ps (omega arith) (omega arith),
      )
]

-- sendMsg returns 1 after at most as many rounds as the message has bytes, if each round sends a
-- byte at least.
pub send_msg-counts :
    (m : Msg) (ns : List ℕ)
    → All Positive ns
    → get_size8 m ≤ length ns
    → get_size8 m < 2 ^ 64
    → (send_msg m (counts (get_size8 m) ns)).1 ≡ returns ok
unfolding send_msg
send_msg-counts m ns p le lt = send_loop-counts m (get_size8 m) 0 ns p le lt

-- The first bytes of a piece of the memory, and those that follow.
take-load_bytes :
    (m : Msg) (off k n : ℕ)
    → n ≤ k
    → (take n (load_bytes m off k) ≡ load_bytes m off n)
      × (drop n (load_bytes m off k) ≡ load_bytes m (off + n) (k - n))
take-load_bytes m off k n le = (
  ap (take n) split ∙ take-append (load_bytes m off n) _ n (sym (length-load_bytes m off n)),
  ap (drop n) split ∙ drop-append (load_bytes m off n) _ n (sym (length-load_bytes m off n)),
)
  where
    split : load_bytes m off k ≡ load_bytes m off n ++ load_bytes m (off + n) (k - n)
    split =
        ap (load_bytes m off) {y = n + (k - n)} (omega arith) ∙ load_bytes-append m off n (k - n)

-- How a call ends that wants so many bytes of a connection which brings so many and then ends.
abbrev pub cut : (wanted brought : ℕ) → Outcome
cut wanted brought = if ltb brought wanted then returns closed else returns ok

length-drop : (n : ℕ) (xs : List ℕ) → length (drop n xs) ≡ length xs - n
length-drop zero xs = omega arith
length-drop (suc n) [] = omega arith
length-drop (suc n) (x ∷ xs) = omega (arith, length-drop n xs)

-- With the header there, the rest of the message.
recv_loop-body_cut :
    (m : Msg) (want ptr : ℕ) (stream : List ℕ) (ns : List ℕ)
    → All Positive ns
    → want ≤ length ns
    → ptr + want ≤ Sizeof.msg
    → (recv_loop m want ptr true stream (map count ns)).outcome ≡ cut want (length stream)
unfolding recv_loop
recv_loop-body_cut m want ptr stream [] p le lt = ground (arith, le)
recv_loop-body_cut m want ptr stream (n ∷ ns) (p, ps) le lt =
    let recvd = min n (min want (length stream)) in
    let m' = store_bytes m ptr (take recvd stream) in
    elim (Bool-cases (want == 0)) [
      | inl a ↦ rw (recv_loop, a) (ground (arith, a))
      | inr a ↦ elim (Bool-cases (recvd == 0)) [
        | inl b ↦ rw (recv_loop, a, b) (ground (arith, a, b, p))
        | inr b ↦
            let c : ltb Sizeof.msg (ptr + recvd) ≡ false = ground (arith, lt) in
            let d : (want - recvd == 0 && not true) ≡ false = ground arith in
            rw (recv_loop, a, b, c, d)
              (recv_loop-body_cut m' (want - recvd) (ptr + recvd) (drop recvd stream) ns ps
                  (ground (arith, le, b)) (ground (arith, lt))
                ∙ ground (arith, length-drop recvd stream))
      ]
    ]

recv_loop-hung_up :
    (m : Msg) (want ptr n : ℕ) (events : List Event)
    → 0 < want
    → (recv_loop m want ptr false [] (count n ∷ events)).outcome ≡ returns closed
unfolding recv_loop
recv_loop-hung_up m want ptr n events w = ground arith

load_bytes-none : (m : Msg) (off : ℕ) → load_bytes m off 0 ≡ []
unfolding load_bytes
load_bytes-none m off = refl

-- The header comes in one round or in several, if it comes at all.
recv_loop-cut :
    (m sent : Msg) (ns : List ℕ) (want ptr k : ℕ)
    → All Positive ns
    → 0 < want
    → ptr + want ≡ Sizeof.header
    → Sizeof.header ≤ get_size8 sent
    → get_size8 sent ≤ Sizeof.msg
    → get_size8 sent ≤ ptr + length ns
    → Agree m sent ptr
    → (recv_loop m want ptr false (load_bytes sent ptr k) (map count ns)).outcome
      ≡ cut (get_size8 sent) (ptr + k)
unfolding recv_loop
recv_loop-cut m sent [] want ptr k p w e lo hi le a = absurd (omega arith)
recv_loop-cut m sent (n ∷ ns) want ptr k (p, ps) w e lo hi le agree = elim (eq-or-ne k 0) [
  | inl z ↦
      ap (λ (l : List ℕ). (recv_loop m want ptr false l (count n ∷ map count ns)).outcome)
        (ap (load_bytes sent ptr) z ∙ load_bytes-none sent ptr)
      ∙ (recv_loop-hung_up m want ptr n (map count ns) w ∙ ground (arith, z))
  | inr z ↦ ap (λ (r : Received). r.outcome) (step (omega arith)) ∙ elim (lt-or-le recvd want) [
    | inl lt ↦
        ap (λ (r : Received). r.outcome)
          (continue_with-rest m want ptr recvd false bytes later (map count ns) (inr lt))
        ∙ (recv_loop-cut m' sent ns (want - recvd) (ptr + recvd) (k - recvd) ps (omega arith)
              (omega arith) lo hi (omega arith) agree'
            ∙ ap (cut (get_size8 sent)) {y = ptr + k} (omega arith))
    | inr ge ↦
        ap (λ (r : Received). r.outcome)
          (continue_with-header m sent want ptr recvd bytes later (map count ns) (omega arith)
            (Agree-get_size8 m' sent (ptr + recvd) (omega arith) agree') lo)
        ∙ (recv_loop-body_cut m' (get_size8 sent - Sizeof.header) Sizeof.header later ns ps
              (omega arith) (omega arith)
            ∙ ground (arith, length-load_bytes sent (ptr + recvd) (k - recvd)))
  ]
]
  where
    recvd : ℕ
    recvd = min n (min want k)

    bytes : List ℕ
    bytes = load_bytes sent ptr recvd

    later : List ℕ
    later = load_bytes sent (ptr + recvd) (k - recvd)

    m' : Msg
    m' = store_bytes m ptr bytes

    agree' : Agree m' sent (ptr + recvd)
    agree' = Agree-store_bytes m sent ptr recvd agree

    step :
        0 < k
        → recv_loop m want ptr false (load_bytes sent ptr k) (count n ∷ map count ns)
          ≡ continue_with m want ptr recvd false bytes later (map count ns)
    step h =
        let len = length-load_bytes sent ptr k in
        let stream = load_bytes sent ptr k in
        let (took, left) = take-load_bytes sent ptr k recvd (omega arith) in
        recv_loop-continue m want ptr n false stream (map count ns) w (omega (arith, len))
          (omega (arith, len))
        ∙ (ap
              (λ z.
                let q = min n (min want z) in
                continue_with m want ptr q false (take q stream) (drop q stream) (map count ns))
              len
            ∙ ap₂ (λ b t. continue_with m want ptr recvd false b t (map count ns)) took left)

-- What recvMsg returns on a connection that brings the first `k` bytes of a message, whose size
-- field is between 5 and 525, and then ends, where each recv reports a byte at least of those that
-- there are: 1 if that is the whole message, and 0 if it is cut off, in its header or after it;
-- after at most as many rounds as the message has bytes.
pub recv_msg-ends :
    (m sent : Msg) (k : ℕ) (ns : List ℕ)
    → All Positive ns
    → Sizeof.header ≤ get_size8 sent
    → get_size8 sent ≤ Sizeof.msg
    → get_size8 sent ≤ length ns
    → (recv_msg m (load_bytes sent 0 k) (map count ns)).outcome
      ≡ (if ltb k (get_size8 sent) then returns closed else returns ok)
unfolding recv_msg
recv_msg-ends m sent k ns p lo hi le =
    recv_loop-cut m sent ns Sizeof.header 0 k p (omega arith) (omega arith) lo hi (omega arith)
      (λ i lt. absurd (omega arith))
    ∙ ap (cut (get_size8 sent)) {x = 0 + k} (omega arith)
