-- ===== src/Transport.antt =====
-- sendMsg and recvMsg of PROTO_DIST_QUEUE.c, against what send and recv report in each round.
pub mod Send
pub mod Receive
pub mod Limits
pub mod Returns
mod Tests
use Prim.Native.Nat.{min}
use distributed_queue_system.Base.{
  ℕ, ◌+◌, ◌-◌, ◌%◌, ◌^◌, Bool, true, false, ◌&&◌, not, List, [], ◌∷◌, ◌++◌, ltb, ◌==◌,
  if◌then◌else◌, length, take, drop,
}
use distributed_queue_system.Proto.Sizeof
use distributed_queue_system.Proto.Memory.{Msg, store_bytes, load_bytes}
use distributed_queue_system.Proto.Getters.{get_size8}

-- What sendMsg and recvMsg return: 1, 0 and -1.
pub data Ret : Type 0 where
  ok closed failed : Ret

-- How far a call gets with the events of its rounds: it returns, it waits for another event, or its
-- pointer leaves the message.
pub data Outcome : Type 0 where
  returns : Ret → Outcome
  pending : Outcome
  overrun : Outcome

-- Subtraction on `size_t`.
abbrev pub sub_size : ℕ → ℕ → ℕ
sub_size a b = (a + 2 ^ 64 - b) % 2 ^ 64

-- What send or recv reports: a number of bytes, -1 with EINTR, or -1 with another error.
pub data Event : Type 0 where
  count : ℕ → Event
  interrupted : Event
  broken : Event

-- Puts bytes in front of those that the later rounds send.
abbrev pub prepend : List ℕ → List ℕ × Outcome → List ℕ × Outcome
prepend bytes (wire, outcome) = (bytes ++ wire, outcome)

-- The loop of sendMsg with `to_send` bytes left from offset `ptr` on: the bytes that go on the wire,
-- and how the call ends. After EINTR the code adds 1 to `toSend` and takes 1 from `ptr`. `m` is all
-- the memory from the message on, and so is read for a size field above the message's size too.
unfoldable pub send_loop : Msg → (to_send ptr : ℕ) → List Event → List ℕ × Outcome
send_loop m to_send ptr [] = ([], if to_send == 0 then returns ok else pending)
send_loop m to_send ptr (event ∷ events) = elim (to_send == 0) [
  | true ↦ ([], returns ok)
  | false ↦ elim event [
    | count sent ↦ elim (sent == 0) [
      | true ↦ ([], returns closed)
      | false ↦
          prepend (load_bytes m ptr sent) (send_loop m (sub_size to_send sent) (ptr + sent) events)
    ]
    | interrupted ↦ elim (ptr == 0) [
      | true ↦ ([], overrun)
      | false ↦ send_loop m ((to_send + 1) % 2 ^ 64) (ptr - 1) events
    ]
    | broken ↦ ([], returns failed)
  ]
]

unfoldable pub send_msg : Msg → List Event → List ℕ × Outcome
unfolding send_loop
send_msg m events = send_loop m (get_size8 m) 0 events

-- What a call of recvMsg leaves: the message's memory, the bytes still to come, and how it ends.
pub record Received : Type 0 where
  pub msg : Msg
  pub stream : List ℕ
  pub outcome : Outcome

-- The loop of recvMsg. In a round that reports `n` bytes, recv has stored as many bytes of the
-- stream, but no more than it was asked for and than are there. A round that writes past the message
-- ends the model with `overrun`: C defines nothing from there on, and the loop itself has no such stop.
unfoldable pub recv_loop :
    Msg → (to_recv ptr : ℕ) → (header_recvd : Bool) → (stream : List ℕ) → List Event → Received
recv_loop m to_recv ptr header_recvd stream [] = record {
  msg = m;
  stream = stream;
  outcome = if to_recv == 0 then returns ok else pending;
}
recv_loop m to_recv ptr header_recvd stream (event ∷ events) = elim (to_recv == 0) [
  | true ↦ record { msg = m; stream = stream; outcome = returns ok }
  | false ↦ elim event [
    | count n ↦
        let recvd = min n (min to_recv (length stream)) in
        let m' = store_bytes m ptr (take recvd stream) in
        let left = to_recv - recvd in
        elim (recvd == 0) [
          | true ↦ record { msg = m; stream = stream; outcome = returns closed }
          | false ↦ elim (ltb Sizeof.msg (ptr + recvd)) [
            | true ↦ record { msg = m; stream = stream; outcome = overrun }
            | false ↦ elim (left == 0 && not header_recvd) [
              | true ↦
                  recv_loop m' (sub_size (get_size8 m') Sizeof.header) Sizeof.header true
                    (drop recvd stream) events
              | false ↦ recv_loop m' left (ptr + recvd) header_recvd (drop recvd stream) events
            ]
          ]
        ]
    | interrupted ↦ elim (ptr == 0) [
      | true ↦ record { msg = m; stream = stream; outcome = overrun }
      | false ↦ recv_loop m ((to_recv + 1) % 2 ^ 64) (ptr - 1) header_recvd stream events
    ]
    | broken ↦ record { msg = m; stream = stream; outcome = returns failed }
  ]
]

unfoldable pub recv_msg : Msg → List ℕ → List Event → Received
unfolding recv_loop
recv_msg m stream events = recv_loop m Sizeof.header 0 false stream events
