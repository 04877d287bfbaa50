-- ===== src/Client/Session/Tests.antt =====
-- The sessions of client.c on concrete input.
use distributed_queue_system.Base.{ℕ, ◌≡◌, refl, true, List, [], ◌∷◌, ◌++◌, none, some, arith}
use distributed_queue_system.Text.{codes}
use distributed_queue_system.Transport.{ok}
use distributed_queue_system.Proto.{wait}
use distributed_queue_system.Proto.Memory.{Msg}
use distributed_queue_system.Server.{MainServer}
use distributed_queue_system.Server.Reply.{done}
use distributed_queue_system.Server.Attend.{attend_client}
use distributed_queue_system.Server.Sample.{
  two_jobs, blank, env, two_jobs-IsSound, two_jobs-HasRoom,
}
use distributed_queue_system.Client.{get_args_submit_int, job_submitted, job_state}
use distributed_queue_system.Client.Commands.{
  Turn, answered, accepts, client_round, sends, shows, client_main,
}
use distributed_queue_system.Client.Interaction.{
  Pass, from_job, from_terminal, returned, job_bytes, terminal_bytes,
}
use distributed_queue_system.Client.Rounds.{client_round-submiti}
use distributed_queue_system.Client.Session.{typed, turn_with, submit_then_state}

abbrev root_dir : List ℕ
root_dir = 47 ∷ []

submit_then_state_example :
    (m₁ a₁ m₂ a₂ : Msg) × (s' : MainServer) × (attend_client env ok m₁ two_jobs
      ≡ done (a₁ ∷ []) true s')
    × (attend_client env ok m₂ s' ≡ done (a₂ ∷ []) true s')
    × (client_main
          (turn_with root_dir a₁ ∷ turn_with root_dir a₂ ∷ [])
          (record { input = typed (codes "ls -l") 2 []; pkg = blank })
        ≡ (
          sends m₁
              ∷ shows (job_submitted 2)
              ∷ sends m₂
              ∷ shows (job_state 2 (some (wait, none)))
              ∷ [],
          record { input = []; pkg = m₂ },
          true,
        ))
submit_then_state_example =
    submit_then_state env env blank (codes "ls -l") root_dir [] two_jobs (ground arith)
      two_jobs-IsSound two_jobs-HasRoom refl (omega arith) (omega arith)

-- The job writes two bytes and is given one.
abbrev talk : List Pass
talk = from_job (1 ∷ 2 ∷ []) 2 ∷ from_terminal (3 ∷ []) 1 ∷ []

abbrev called : Turn
called = record (turn_with root_dir blank) {
  addr = 16777343;
  port = 4000;
  makes_socket = true;
  caller = some (talk ++ from_job [] 0 ∷ []);
}

client_round-submiti_example :
    client_round called
      (record { input = codes "submiti" ++ 10 ∷ (codes "sh" ++ 10 ∷ []); pkg = blank })
    ≡ (
      sends (get_args_submit_int blank (codes "sh" ++ 10 ∷ []) root_dir 16777343 4000)
          ∷ answered called
          ∷ accepts
              (some (record { to_terminal = 1 ∷ 2 ∷ []; to_job = 3 ∷ []; standing = returned }))
          ∷ [],
      record {
        input = [];
        pkg = get_args_submit_int blank (codes "sh" ++ 10 ∷ []) root_dir 16777343 4000;
      },
      true,
    )
unfolding job_bytes terminal_bytes
client_round-submiti_example =
    client_round-submiti called (codes "sh") root_dir [] blank talk [] 0 (ground arith) refl refl
      refl ((omega arith, refl), ((omega arith, refl), tt))
