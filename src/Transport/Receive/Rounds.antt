-- ===== src/Transport/Receive/Rounds.antt =====
-- One round of the loop of recvMsg.
use Prim.Native.Nat.{min}
use distributed_queue_system.Base.{
  ℕ, zero, suc, ◌+◌, ◌-◌, ◌≤◌, ◌<◌, ◌≡◌, refl, ap, ap₂, ◌∙◌, sym, Bool, true, false, not, ◌&&◌,
  List, [], ◌∷◌, ◌++◌, arith, length, length-append, take, drop, take-append, drop-append, ◌==◌,
  lt-or-le, inl, inr, ◌⊎◌,
}
use mathlib.Core.List.{append_assoc}
use distributed_queue_system.Proto.Sizeof
use distributed_queue_system.Proto.Memory.{
  Msg, store_bytes, load_bytes, load_bytes-append, length-load_bytes, store_bytes-below,
}
use distributed_queue_system.Proto.Getters.{get_size8}
use distributed_queue_system.Transport.{ok, returns, Event, count, sub_size, Received, recv_loop}

-- The first `n` bytes of two memories agree.
abbrev pub Agree : Msg → Msg → ℕ → Type 0
Agree m k n = (i : ℕ) → i < n → m i ≡ k i

store_bytes-load_bytes :
    (m k : Msg) (off n i : ℕ)
    → off ≤ i
    → i < off + n
    → store_bytes m off (load_bytes k off n) i ≡ k i
unfolding store_bytes load_bytes
store_bytes-load_bytes m k off zero i lo hi = absurd (omega arith)
store_bytes-load_bytes m k off (suc n) i lo hi =
    ground (arith, store_bytes-load_bytes m k (off + 1) n i)

pub Agree-store_bytes :
    (m k : Msg) (off n : ℕ)
    → Agree m k off
    → Agree (store_bytes m off (load_bytes k off n)) k (off + n)
Agree-store_bytes m k off n a i lt = elim (lt-or-le i off) [
  | inl b ↦ store_bytes-below m off (load_bytes k off n) i b ∙ a i b
  | inr o ↦ store_bytes-load_bytes m k off n i o lt
]

-- recvMsg returned 1 with the message `sent` of `size` bytes, and left `rest` on the stream.
pub record Reassembled (sent : Msg) (size : ℕ) (rest : List ℕ) (r : Received) : Type 0 where
  pub returned : r.outcome ≡ returns ok
  pub message : Agree r.msg sent size
  pub remains : r.stream ≡ rest

-- One round: what recv takes of a stream that goes on with a message.
record Round (sent : Msg) (ptr want more : ℕ) (rest : List ℕ) (n : ℕ) (stream : List ℕ)
    : Type 0 where
  recvd : min n (min want (length stream)) ≡ min n want
  took : take (min n want) stream ≡ load_bytes sent ptr (min n want)
  left :
      drop (min n want) stream
      ≡ load_bytes sent (ptr + min n want) (want + more - min n want) ++ rest

round :
    (sent : Msg) (ptr want more : ℕ) (rest : List ℕ) (n : ℕ)
    → Round sent ptr want more rest n (load_bytes sent ptr (want + more) ++ rest)
round sent ptr want more rest n = record {
  recvd = omega (
    arith,
    length-append (load_bytes sent ptr (want + more)) rest,
    length-load_bytes sent ptr (want + more),
  );
  took =
      ap (take (min n want)) split
      ∙ take-append (load_bytes sent ptr (min n want)) _ (min n want)
          (sym (length-load_bytes sent ptr (min n want)));
  left =
      ap (drop (min n want)) split
      ∙ drop-append (load_bytes sent ptr (min n want)) _ (min n want)
          (sym (length-load_bytes sent ptr (min n want)));
}
  where
    split :
        load_bytes sent ptr (want + more) ++ rest
        ≡ load_bytes sent ptr (min n want)
          ++ (load_bytes sent (ptr + min n want) (want + more - min n want) ++ rest)
    split =
        ap (λ k. load_bytes sent ptr k ++ rest) {y = min n want + (want + more - min n want)}
          (omega arith)
        ∙ (ap (λ k. k ++ rest) (load_bytes-append sent ptr (min n want) (want + more - min n want))
            ∙ append_assoc (load_bytes sent ptr (min n want))
                (load_bytes sent (ptr + min n want) (want + more - min n want)) rest)

-- What recvMsg does in a round that stores `recvd` bytes, given them and what follows them.
abbrev pub continue_with :
    Msg → (to_recv ptr recvd : ℕ) → Bool → (bytes stream : List ℕ) → List Event → Received
continue_with m to_recv ptr recvd header_recvd bytes stream events =
    elim (to_recv - recvd == 0 && not header_recvd) [
      | true ↦
          recv_loop (store_bytes m ptr bytes)
            (sub_size (get_size8 (store_bytes m ptr bytes)) Sizeof.header) Sizeof.header true stream
            events
      | false ↦
          recv_loop (store_bytes m ptr bytes) (to_recv - recvd) (ptr + recvd) header_recvd stream
            events
    ]

pub recv_loop-continue :
    (m : Msg) (to_recv ptr n : ℕ) (header_recvd : Bool) (stream : List ℕ) (events : List Event)
    → 0 < to_recv
    → 0 < min n (min to_recv (length stream))
    → ptr + min n (min to_recv (length stream)) ≤ Sizeof.msg
    → recv_loop m to_recv ptr header_recvd stream (count n ∷ events) ≡ (
        let k = min n (min to_recv (length stream)) in
        continue_with m to_recv ptr k header_recvd (take k stream) (drop k stream) events)
unfolding recv_loop
recv_loop-continue m to_recv ptr n header_recvd stream events p q h = ground arith

-- The round on a stream that goes on with the message.
pub recv_loop-round :
    (m sent : Msg) (want more ptr n : ℕ) (header_recvd : Bool) (rest : List ℕ) (events : List Event)
    → 0 < want
    → 0 < n
    → ptr + min n want ≤ Sizeof.msg
    → recv_loop m want ptr header_recvd
        (load_bytes sent ptr (want + more) ++ rest)
        (count n ∷ events)
      ≡ continue_with m want ptr
          (min n want)
          header_recvd
          (load_bytes sent ptr (min n want))
          (load_bytes sent (ptr + min n want) (want + more - min n want) ++ rest)
          events
recv_loop-round m sent want more ptr n header_recvd rest events p q h =
    let r = round sent ptr want more rest n in
    let stream = load_bytes sent ptr (want + more) ++ rest in
    recv_loop-continue m want ptr n header_recvd stream events p (omega arith) (omega arith)
    ∙ (ap (λ k. continue_with m want ptr k header_recvd (take k stream) (drop k stream) events)
          r.recvd
        ∙ ap₂ (λ b t. continue_with m want ptr (min n want) header_recvd b t events) r.took r.left)

pub continue_with-rest :
    (m : Msg) (want ptr k : ℕ) (header_recvd : Bool) (bytes stream : List ℕ) (events : List Event)
    → (header_recvd ≡ true) ⊎ (k < want)
    → continue_with m want ptr k header_recvd bytes stream events
      ≡ recv_loop (store_bytes m ptr bytes) (want - k) (ptr + k) header_recvd stream events
continue_with-rest m want ptr k header_recvd bytes stream events h = ground arith

-- At the end of the header the size is known.
pub continue_with-header :
    (m sent : Msg) (want ptr k : ℕ) (bytes stream : List ℕ) (events : List Event)
    → k ≡ want
    → get_size8 (store_bytes m ptr bytes) ≡ get_size8 sent
    → Sizeof.header ≤ get_size8 sent
    → continue_with m want ptr k false bytes stream events
      ≡ recv_loop
          (store_bytes m ptr bytes)
          (get_size8 sent - Sizeof.header)
          Sizeof.header
          true
          stream
          events
continue_with-header m sent want ptr k bytes stream events e g h =
    ground
      (arith, ap (λ z. recv_loop (store_bytes m ptr bytes) z Sizeof.header true stream events) size)
  where
    size :
        sub_size (get_size8 (store_bytes m ptr bytes)) Sizeof.header
        ≡ get_size8 sent - Sizeof.header
    size = ap (λ z. sub_size z Sizeof.header) g ∙ omega arith

pub recv_loop-done :
    (m : Msg) (ptr : ℕ) (header_recvd : Bool) (stream : List ℕ) (events : List Event)
    → recv_loop m 0 ptr header_recvd stream events
      ≡ record { msg = m; stream = stream; outcome = returns ok }
unfolding recv_loop
recv_loop-done m ptr header_recvd stream [] = refl
recv_loop-done m ptr header_recvd stream (e ∷ events) = refl
