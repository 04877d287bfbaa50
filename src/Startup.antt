-- ===== src/Startup.antt =====
-- How the three programs start: main up to its loop in client.c, exec_server.c and main_server.c, with
-- socketCreate_connect and socketCreate.
mod Tests
use distributed_queue_system.Base.{
  ℕ, ◌+◌, ◌%◌, ◌^◌, ◌<◌, ◌≡◌, refl, ap, ap₂, ◌∙◌, Bool, true, false, List, [], ◌∷◌, Option, none,
  some, arith, if◌then◌else◌,
}
use distributed_queue_system.Text.{codes, atoi, print_decimal}
use distributed_queue_system.Text.Decimal.{atoi-print_decimal}
use distributed_queue_system.Proto.Memory.{htons}
use distributed_queue_system.Proto.RoundTrip.{u16_mod}

-- What the system allows: a socket, the address of a name, a connection to an address and a port, a
-- socket of one's own at a port, and a thread for each of the two listening sockets. Addresses and
-- ports are in network order.
pub record System : Type 0 where
  pub makes_socket : Bool
  pub resolves : List ℕ → Option ℕ
  pub connects : (addr port : ℕ) → Bool
  pub binds : (port : ℕ) → Bool
  pub first_thread : Bool
  pub second_thread : Bool

-- `htons` of what atoi reads, cut to 16 bits.
abbrev pub port_of : List ℕ → ℕ
port_of word = htons (atoi word % 2 ^ 16)

-- How a program that connects starts: with a connection, or with an exit status.
pub data Start : Type 0 where
  connected : (addr port : ℕ) → Start
  exits : (status : ℕ) → Start

-- The calls of gethostbyname and connect at a port, with what a failed one makes of the program.
abbrev pub connect_to : System → (addr : List ℕ) → (port : ℕ) → (failed : Start) → Start
connect_to sys addr port failed = elim (sys.resolves addr) [
  | none ↦ exits 0
  | some a ↦ if sys.connects a port then connected a port else failed
]

-- socketCreate_connect, whose `error` exits with 0.
unfoldable pub socket_create_connect : System → (addr port : List ℕ) → Start
socket_create_connect sys addr port =
    if sys.makes_socket then connect_to sys addr (port_of port) (exits 0) else exits 0

-- main of client.c before its loop; the first argument is the program's name.
unfoldable pub client_start : System → (argv : List (List ℕ)) → Start
unfolding socket_create_connect
client_start sys (name ∷ addr ∷ port ∷ more) = socket_create_connect sys addr port
client_start sys (name ∷ addr ∷ []) = exits 0
client_start sys (name ∷ []) = exits 0
client_start sys [] = exits 0

-- main of exec_server.c before its loop: without a socket it goes on, and connect fails; a failed
-- connect makes main return -1.
unfoldable pub exec_server_start : System → (argv : List (List ℕ)) → Start
exec_server_start sys (name ∷ addr ∷ port ∷ more) =
    if sys.makes_socket
    then connect_to sys addr (port_of port) (exits 255)
    else elim (sys.resolves addr) [ none ↦ exits 0 | some a ↦ exits 255 ]
exec_server_start sys (name ∷ addr ∷ []) = exits 0
exec_server_start sys (name ∷ []) = exits 0
exec_server_start sys [] = exits 0

-- How the main server starts: with the ports of the sockets for clients and for execution servers,
-- where they could be made and bound, with an exit status, or with a read through NULL.
pub data ServerStart : Type 0 where
  listens : (client_port server_port : Option ℕ) → ServerStart
  exits_with : (status : ℕ) → ServerStart
  faults : ServerStart

-- bind at a port.
abbrev pub bind_at : System → ℕ → Option ℕ
bind_at sys port = if sys.binds port then some port else none

-- socketCreate only complains where a step fails.
unfoldable pub socket_create : System → List ℕ → Option ℕ
socket_create sys word = if sys.makes_socket then bind_at sys (port_of word) else none

-- main of main_server.c before its loop: it asks for one argument, and reads two.
unfoldable pub main_server_start : System → (argv : List (List ℕ)) → ServerStart
unfolding socket_create
main_server_start sys (name ∷ client ∷ server ∷ more) =
    if sys.first_thread
    then if sys.second_thread
      then listens (socket_create sys client) (socket_create sys server)
      else exits_with 255
    else exits_with 255
main_server_start sys (name ∷ client ∷ []) = faults
main_server_start sys (name ∷ []) = exits_with 1
main_server_start sys [] = exits_with 1

port_of-print_decimal : (p : ℕ) → p < u16_mod → port_of (print_decimal p) ≡ htons p
port_of-print_decimal p h =
    ap (λ n. htons (n % 2 ^ 16)) (atoi-print_decimal p (omega arith))
    ∙ ap htons {y = p} (omega arith)

socket_create-print_decimal :
    (sys : System) (p : ℕ)
    → p < u16_mod
    → sys.makes_socket ≡ true
    → sys.binds (htons p) ≡ true
    → socket_create sys (print_decimal p) ≡ some (htons p)
unfolding socket_create
socket_create-print_decimal sys p h m b =
    ap (λ x. if x then bind_at sys (port_of (print_decimal p)) else none) m
    ∙ (ap (bind_at sys) (port_of-print_decimal p h)
        ∙ ap (λ x. if x then some (htons p) else none) b)

connect_to-print_decimal :
    (sys : System) (host : List ℕ) (p addr : ℕ) (failed : Start)
    → p < u16_mod
    → sys.resolves host ≡ some addr
    → sys.connects addr (htons p) ≡ true
    → connect_to sys host (port_of (print_decimal p)) failed ≡ connected addr (htons p)
connect_to-print_decimal sys host p addr failed h r c =
    ap (λ port. connect_to sys host port failed) (port_of-print_decimal p h) ∙ ground (arith, r, c)

-- The main server is started with two 16-bit ports in decimal, and can bind them and make its
-- threads: it listens at these ports, in network order; and a client that is started with the
-- server's name and the first port, and an execution server with the name and the second one,
-- connect to these ports at the address of the name, if the system lets them.
pub starts_meet :
    (sys : System) (prog host : List ℕ) (p q addr : ℕ)
    → p < u16_mod
    → q < u16_mod
    → sys.makes_socket ≡ true
    → sys.first_thread ≡ true
    → sys.second_thread ≡ true
    → sys.binds (htons p) ≡ true
    → sys.binds (htons q) ≡ true
    → sys.resolves host ≡ some addr
    → sys.connects addr (htons p) ≡ true
    → sys.connects addr (htons q) ≡ true
    → (main_server_start sys (prog ∷ print_decimal p ∷ print_decimal q ∷ [])
        ≡ listens (some (htons p)) (some (htons q)))
      × (client_start sys (prog ∷ host ∷ print_decimal p ∷ []) ≡ connected addr (htons p))
      × (exec_server_start sys (prog ∷ host ∷ print_decimal q ∷ []) ≡ connected addr (htons q))
unfolding main_server_start client_start socket_create_connect exec_server_start
starts_meet sys prog host p q addr hp hq m t u bp bq r cp cq = (
  ground (arith, t, u)
      ∙ ap₂ (λ a b. listens a b) (socket_create-print_decimal sys p hp m bp)
          (socket_create-print_decimal sys q hq m bq),
  ground (arith, m) ∙ connect_to-print_decimal sys host p addr (exits 0) hp r cp,
  ground (arith, m) ∙ connect_to-print_decimal sys host q addr (exits 255) hq r cq,
)
