-- ===== src/Startup/Tests.antt =====
-- The three programs on one host, with the ports 4000 and 4001.
use distributed_queue_system.Base.{◌≡◌, refl, true, [], ◌∷◌, some, arith}
use distributed_queue_system.Text.{codes, print_decimal}
use distributed_queue_system.Proto.Memory.{htons}
use distributed_queue_system.Startup.{
  System, connected, listens, client_start, exec_server_start, main_server_start, starts_meet,
}

abbrev one_host : System
one_host = record {
  makes_socket = true;
  resolves = λ name. some 16777343;
  connects = λ addr port. true;
  binds = λ port. true;
  first_thread = true;
  second_thread = true;
}

starts_meet_example :
    (main_server_start one_host (codes "ms" ∷ print_decimal 4000 ∷ print_decimal 4001 ∷ [])
      ≡ listens (some (htons 4000)) (some (htons 4001)))
    × (client_start one_host (codes "ms" ∷ codes "localhost" ∷ print_decimal 4000 ∷ [])
        ≡ connected 16777343 (htons 4000))
    × (exec_server_start one_host (codes "ms" ∷ codes "localhost" ∷ print_decimal 4001 ∷ [])
        ≡ connected 16777343 (htons 4001))
starts_meet_example =
    starts_meet one_host (codes "ms") (codes "localhost") 4000 4001 16777343 (omega arith)
      (omega arith) refl refl refl refl refl refl refl refl
