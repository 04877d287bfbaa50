-- ===== src/ExecServer/Child/Sample.antt =====
-- A system that refuses nothing, the execution server's own process, and a directory: the data that
-- the tests of the child of exec_server.c share.
use distributed_queue_system.Base.{ℕ, true, List, [], ◌∷◌, none}
use distributed_queue_system.ExecServer.Child.{System, Process, terminal, connected}

abbrev pub willing : System
willing = record {
  opens = λ name. true;
  null_opens = true;
  dup_out = true;
  dup_err = true;
  dup_in = true;
  changes_dir = λ dir. true;
  reached = connected;
  runs = λ argv. true;
}

abbrev pub own : Process
own = record { stdin = terminal; stdout = terminal; stderr = terminal; wdir = none }

abbrev pub root_dir : List ℕ
root_dir = 47 ∷ []
