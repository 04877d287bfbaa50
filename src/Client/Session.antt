-- ===== src/Client/Session.antt =====
-- A session of client.c with the main server: a job is submitted, and then asked for by its id.
mod Tests
use distributed_queue_system.Base.{
  ℕ, ◌+◌, ◌*◌, ◌%◌, ◌^◌, ◌<◌, ◌≡◌, ◌≢◌, refl, ap, sym, ◌∙◌, subst, true, false, List, [], ◌∷◌, ◌++◌,
  Option, none, some, arith, ◌==◌, if◌then◌else◌, All,
}
use distributed_queue_system.Text.{codes, print_decimal}
use distributed_queue_system.Queue.{max_jobs_queue, count}
use distributed_queue_system.Transport.{ok}
use distributed_queue_system.History.{JobHistory, lookup_job}
use distributed_queue_system.Proto.{wait, state_code, sz_path, num_path}
use distributed_queue_system.Proto.RoundTrip.{u8_mod}
use distributed_queue_system.Proto.Memory.{Msg, strncpy}
use distributed_queue_system.Job.{Job}
use distributed_queue_system.Server.{MainServer}
use distributed_queue_system.Server.Reply.{done, Env}
use distributed_queue_system.Server.Attend.{attend_client}
use distributed_queue_system.Server.Submit.Laws.{new_id, new_entry, Submitted}
use distributed_queue_system.Server.Invariant.{IsSound, HasRoom}
use distributed_queue_system.Client.{
  show, get_args_submit, job_state_request, Shown, job_submitted, job_state, state_line,
  client_protocol,
}
use distributed_queue_system.Client.EndToEnd.{submit_end_to_end, job_state_held}
use distributed_queue_system.Client.Commands.{Action, sends, shows, Turn, Client, client_main}
use distributed_queue_system.Client.Rounds.{client_round-submit, client_round-statejob}

-- What is typed: a job's line, and the question for the job with an id.
abbrev pub typed : (line : List ℕ) (id : ℕ) (rest : List ℕ) → List ℕ
typed line id rest =
    codes "submit" ++ 10 ∷ (line ++ 10 ∷ (codes "statejob" ++ 32 ∷ (print_decimal id ++ 10 ∷ rest)))

-- A round with an answer that arrives.
abbrev pub turn_with : (dir : List ℕ) → Msg → Turn
turn_with dir answer = record {
  received = ok;
  answer = answer;
  cwd = some dir;
  addr = 0;
  port = 0;
  makes_socket = false;
  caller = none;
}

module _ (raw : Msg) (line dir rest : List ℕ) (id : ℕ) (h : id < 2 ^ 16)
    (a : All (λ c. (c == 10) ≡ false) line) where
  -- The two messages.
  abbrev pub submission : Msg
  submission = get_args_submit raw (line ++ 10 ∷ []) dir

  abbrev pub question : Msg
  question = job_state_request submission id

  pub client_main-typed :
      (a₁ a₂ : Msg)
      → client_main
          (turn_with dir a₁ ∷ turn_with dir a₂ ∷ [])
          (record { input = typed line id rest; pkg = raw })
        ≡ (
          sends submission
              ∷ shows (client_protocol ok a₁)
              ∷ sends question
              ∷ shows (client_protocol ok a₂)
              ∷ [],
          record { input = rest; pkg = question },
          true,
        )
  unfolding client_main
  client_main-typed a₁ a₂ = ground (
    arith,
    client_round-submit (turn_with dir a₁) line dir
        (codes "statejob" ++ 32 ∷ (print_decimal id ++ 10 ∷ rest)) raw a refl,
    client_round-statejob (turn_with dir a₂) id rest submission (omega arith),
  )

pub new_id-small : (s : MainServer) → new_id s < 2 ^ 16
new_id-small s = omega arith

client_protocol-ok : (m : Msg) → client_protocol ok m ≡ show m
unfolding client_protocol
client_protocol-ok m = refl

-- Asked for a job that was just submitted, the server's answer is shown as a job that waits.
shown-Submitted :
    (e e' : Env) (job : Job) (raw : Msg) (s s' : MainServer)
    → Submitted e job s s'
    → e.history_block.exit_status < u8_mod
    → (answer : Msg) × (attend_client e' ok (job_state_request raw (new_id s)) s'
        ≡ done (answer ∷ []) true s')
      × (show answer ≡ job_state (new_id s) (some (wait, none)))
unfolding state_line
shown-Submitted e e' job raw s s' t x =
    job_state_held e' raw (new_id s) s' (new_entry e job s) (new_id-small s) t.entry (omega arith) x

-- Someone types `submit` with a line, and then `statejob` with the decimal digits of the id that was
-- shown: on a sound server with room in its queue, with both counters below their limits, a fresh
-- block for the job and one for its record whose `exit_status` fits a byte, the client shows the id, and then that the job with this id waits.
pub submit_then_state :
    (e e' : Env) (raw : Msg) (line dir rest : List ℕ) (s : MainServer)
    → All (λ c. (c == 10) ≡ false) line
    → IsSound s
    → HasRoom s
    → s.heap e.addr ≡ none
    → count (s.queue 0) ≢ max_jobs_queue
    → e.history_block.exit_status < u8_mod
    → (m₁ a₁ m₂ a₂ : Msg) × (s' : MainServer) × (attend_client e ok m₁ s ≡ done (a₁ ∷ []) true s')
      × (attend_client e' ok m₂ s' ≡ done (a₂ ∷ []) true s')
      × (client_main
            (turn_with dir a₁ ∷ turn_with dir a₂ ∷ [])
            (record { input = typed line (new_id s) rest; pkg = raw })
          ≡ (
            sends m₁
                ∷ shows (job_submitted (new_id s))
                ∷ sends m₂
                ∷ shows (job_state (new_id s) (some (wait, none)))
                ∷ [],
            record { input = rest; pkg = m₂ },
            true,
          ))
submit_then_state e e' raw line dir rest s a v room fresh n x =
    let id = new_id s in
    let m₁ = get_args_submit raw (line ++ 10 ∷ []) dir in
    let m₂ = job_state_request m₁ id in
    let (a₁, s', r₁, w₁, t) = submit_end_to_end e raw (line ++ 10 ∷ []) dir s v room fresh n in
    let (a₂, r₂, w₂) = shown-Submitted e e' _ m₁ s s' t x in
    (
      m₁,
      a₁,
      m₂,
      a₂,
      s',
      r₁,
      r₂,
      client_main-typed raw line dir rest id (new_id-small s) a a₁ a₂
          ∙ rw (client_protocol-ok a₁, w₁, client_protocol-ok a₂, w₂),
    )
