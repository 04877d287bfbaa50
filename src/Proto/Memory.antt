-- ===== src/Proto/Memory.antt =====
-- The bytes of a message on a little-endian host, byte order conversion, and strncpy.
use Prim.Native.Nat.add
use distributed_queue_system.Base.{
  ℕ, zero, suc, ◌+◌, ◌*◌, ◌/◌, ◌%◌, ◌≤◌, ◌<◌, ◌≡◌, refl, ap, ap₂, ◌∙◌, List, [], ◌∷◌, ◌++◌, arith,
  length, ◌==◌, if◌then◌else◌, update,
}

-- The memory of a `Msg`: the byte at each offset from its start.
abbrev pub Msg : Type 0
Msg = ℕ → ℕ

abbrev pub store8 : Msg → ℕ → ℕ → Msg
store8 m off v = update m off (v % 256)

abbrev pub store16 : Msg → ℕ → ℕ → Msg
store16 m off v = update (update m off (v % 256)) (off + 1) (v / 256 % 256)

abbrev pub store32 : Msg → ℕ → ℕ → Msg
store32 m off v = store16 (store16 m off (v % 65536)) (off + 2) (v / 65536)

abbrev pub load16 : Msg → ℕ → ℕ
load16 m off = m off + 256 * m (off + 1)

abbrev pub load32 : Msg → ℕ → ℕ
load32 m off = load16 m off + 65536 * load16 m (off + 2)

-- `htons` and `ntohs` swap the two bytes.
abbrev pub htons : ℕ → ℕ
htons v = v % 256 * 256 + v / 256 % 256

abbrev pub ntohs : ℕ → ℕ
ntohs v = htons v

-- Copies bytes to the memory from an offset on.
unfoldable pub store_bytes : Msg → ℕ → List ℕ → Msg
store_bytes m off [] = m
store_bytes m off (b ∷ bs) = update (store_bytes m (off + 1) bs) off b

unfoldable pub load_bytes : Msg → ℕ → ℕ → List ℕ
load_bytes m off zero = []
load_bytes m off (suc n) = m off ∷ load_bytes m (off + 1) n

-- What `strncpy(dst, src, n)` leaves in the `n` bytes of `dst`: the source up to its terminator or
-- its first `n` bytes, then zeros. The end of the list counts as a terminator.
unfoldable pub strncpy : ℕ → List ℕ → List ℕ
strncpy zero src = []
strncpy (suc n) [] = 0 ∷ strncpy n []
strncpy (suc n) (c ∷ cs) = c ∷ strncpy n (if c == 0 then [] else cs)

pub length-strncpy : (n : ℕ) (src : List ℕ) → length (strncpy n src) ≡ n
unfolding strncpy
length-strncpy zero src = refl
length-strncpy (suc n) [] = ap suc (length-strncpy n [])
length-strncpy (suc n) (c ∷ cs) = ap suc (length-strncpy n (if c == 0 then [] else cs))

-- Copying a buffer of the same size again changes nothing.
pub strncpy-strncpy : (n : ℕ) (src : List ℕ) → strncpy n (strncpy n src) ≡ strncpy n src
unfolding strncpy
strncpy-strncpy zero src = refl
strncpy-strncpy (suc n) [] = refl
strncpy-strncpy (suc n) (c ∷ cs) = ap (◌∷◌ c) (ground (arith, strncpy-strncpy n cs))

pub store_bytes-below :
    (m : Msg) (off : ℕ) (bs : List ℕ) (i : ℕ) → i < off → store_bytes m off bs i ≡ m i
unfolding store_bytes
store_bytes-below m off [] i h = refl
store_bytes-below m off (b ∷ bs) i h = ground (arith, store_bytes-below m (off + 1) bs i)

pub store_bytes-above :
    (m : Msg) (off : ℕ) (bs : List ℕ) (i : ℕ) → off + length bs ≤ i → store_bytes m off bs i ≡ m i
unfolding store_bytes
store_bytes-above m off [] i h = refl
store_bytes-above m off (b ∷ bs) i h = ground (arith, store_bytes-above m (off + 1) bs i)

-- Two memories that agree on a range hold the same bytes there.
pub load_bytes-ext :
    (m k : Msg) (off n : ℕ)
    → ((i : ℕ) → off ≤ i → i < off + n → m i ≡ k i)
    → load_bytes m off n ≡ load_bytes k off n
unfolding load_bytes
load_bytes-ext m k off zero h = refl
load_bytes-ext m k off (suc n) h =
    ap₂ ◌∷◌ (h off (omega arith) (omega arith))
      (load_bytes-ext m k (off + 1) n (λ i lo hi. h i (omega arith) (omega arith)))

pub load_bytes-store_bytes :
    (m : Msg) (off : ℕ) (bs : List ℕ) → load_bytes (store_bytes m off bs) off (length bs) ≡ bs
unfolding store_bytes load_bytes
load_bytes-store_bytes m off [] = refl
load_bytes-store_bytes m off (b ∷ bs) = ap₂ ◌∷◌ (ground arith) (
    load_bytes-ext (update (store_bytes m (off + 1) bs) off b) (store_bytes m (off + 1) bs)
      (off + 1) (length bs) (λ i lo hi. ground arith)
    ∙ load_bytes-store_bytes m (off + 1) bs)

pub length-load_bytes : (m : Msg) (off n : ℕ) → length (load_bytes m off n) ≡ n
unfolding load_bytes
length-load_bytes m off zero = refl
length-load_bytes m off (suc n) = ap suc (length-load_bytes m (off + 1) n)

pub load_bytes-append :
    (m : Msg) (off a b : ℕ)
    → load_bytes m off (a + b) ≡ load_bytes m off a ++ load_bytes m (off + a) b
unfolding load_bytes
load_bytes-append m off zero b = ap₂ (load_bytes m) (omega arith) (omega arith)
load_bytes-append m off (suc a) b =
    ap (load_bytes m off) (add.suc a b)
    ∙ ap (◌∷◌ (m off)) (
        load_bytes-append m (off + 1) a b
        ∙ ap (λ k. load_bytes m (off + 1) a ++ load_bytes m k b) (omega arith))
