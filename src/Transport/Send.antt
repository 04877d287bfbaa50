-- ===== src/Transport/Send.antt =====
-- What sendMsg puts on the wire.
use distributed_queue_system.Base.{
  ℕ, ◌+◌, ◌-◌, ◌%◌, ◌^◌, ◌≤◌, ◌<◌, ◌≡◌, refl, ap, ap₂, ◌∙◌, List, [], ◌∷◌, ◌++◌, map, arith, All,
}
use distributed_queue_system.Proto.Memory.{Msg, load_bytes, load_bytes-append}
use distributed_queue_system.Proto.Getters.{get_size8}
use distributed_queue_system.Transport.{
  ok, returns, overrun, Event, count, interrupted, sub_size, prepend, send_loop, send_msg,
}

abbrev pub sum : List ℕ → ℕ
sum [] = 0
sum (n ∷ ns) = n + sum ns

abbrev pub Positive : ℕ → Type 0
Positive n = 0 < n

load_bytes-zero : (m : Msg) (off : ℕ) → load_bytes m off 0 ≡ []
unfolding load_bytes
load_bytes-zero m off = refl

-- If the rounds send at least a byte each, and together what is left, the loop sends just that.
pub send_loop_chunks :
    (m : Msg) (ns : List ℕ) (to_send ptr : ℕ)
    → All Positive ns
    → sum ns ≡ to_send
    → to_send < 2 ^ 64
    → send_loop m to_send ptr (map count ns) ≡ (load_bytes m ptr to_send, returns ok)
unfolding send_loop
send_loop_chunks m [] to_send ptr p e h =
    ground (arith, load_bytes-zero m ptr, ap (load_bytes m ptr) e)
send_loop_chunks m (n ∷ ns) to_send ptr p e h = ground (
  arith,
  send_loop_chunks m ns (sub_size to_send n) (ptr + n) p.1 (omega arith) (omega arith),
  load_bytes-append m ptr n (sub_size to_send n),
  whole,
)
  where
    whole : load_bytes m ptr to_send ≡ load_bytes m ptr (n + sub_size to_send n)
    whole = ap (load_bytes m ptr) (omega arith)

-- However the kernel cuts the message up, sendMsg puts its `sz8` bytes on the wire once, in order,
-- and returns 1.
pub send_msg_chunks :
    (m : Msg) (ns : List ℕ)
    → All Positive ns
    → sum ns ≡ get_size8 m
    → send_msg m (map count ns) ≡ (load_bytes m 0 (get_size8 m), returns ok)
unfolding send_msg
send_msg_chunks m ns p e = send_loop_chunks m ns (get_size8 m) 0 p e (omega arith)

-- From inside the message on, the byte before the pointer is sent again.
send_loop_interrupted :
    (m : Msg) (to_send ptr : ℕ) (ns : List ℕ)
    → 0 < to_send
    → 0 < ptr
    → to_send + 1 < 2 ^ 64
    → All Positive ns
    → sum ns ≡ to_send + 1
    → send_loop m to_send ptr (interrupted ∷ map count ns)
      ≡ (load_bytes m (ptr - 1) (to_send + 1), returns ok)
unfolding send_loop
send_loop_interrupted m to_send ptr ns z y h p e =
    let t : (to_send + 1) % 2 ^ 64 ≡ to_send + 1 = omega arith in
    ground (
      arith,
      ap (λ k. send_loop m k (ptr - 1) (map count ns)) t,
      send_loop_chunks m ns (to_send + 1) (ptr - 1) p e h,
    )

send_loop-count :
    (m : Msg) (to_send k : ℕ) (events : List Event)
    → 0 < k
    → k ≤ to_send
    → to_send < 2 ^ 64
    → send_loop m to_send 0 (count k ∷ events)
      ≡ prepend (load_bytes m 0 k) (send_loop m (to_send - k) k events)
unfolding send_loop
send_loop-count m to_send k events z h l =
    let t : sub_size to_send k ≡ to_send - k = omega arith in
    let y : 0 + k ≡ k = omega arith in ground (arith, ap₂ (λ a b. send_loop m a b events) t y)

-- If send is interrupted once, after `k` bytes of the message, at least one and not all, sendMsg sends
-- the last of them a second time, then the rest, and returns 1.
pub send_msg_interrupted :
    (m : Msg) (k : ℕ) (ns : List ℕ)
    → 0 < k
    → k < get_size8 m
    → All Positive ns
    → k + sum ns ≡ get_size8 m + 1
    → send_msg m (count k ∷ interrupted ∷ map count ns)
      ≡ (load_bytes m 0 k ++ load_bytes m (k - 1) (get_size8 m + 1 - k), returns ok)
unfolding send_msg
send_msg_interrupted m k ns z lt p e =
    send_loop-count m (get_size8 m) k (interrupted ∷ map count ns) z (omega arith) (omega arith)
    ∙ ap (prepend (load_bytes m 0 k)) (
        send_loop_interrupted m (get_size8 m - k) k ns (omega arith) z (omega arith) p (omega arith)
        ∙ ap (λ n. (load_bytes m (k - 1) n, returns ok)) (omega arith))

-- One that comes before the first byte makes it read in front of the message.
pub send_msg_interrupted_first :
    (m : Msg) (events : List Event)
    → 0 < get_size8 m
    → send_msg m (interrupted ∷ events) ≡ ([], overrun)
unfolding send_msg
send_msg_interrupted_first m events h = ground arith
