-- ===== src/ExecServer/Child.antt =====
-- The child that exec_server.c forks for a job: consumeJob, with setFDsNoIter, setFDsIter and
-- socketPortConnect.
pub mod Delivery
pub mod Interactive
pub mod Logs
pub mod Failures
pub mod Sample
mod Tests
use distributed_queue_system.Base.{
  ℕ, ◌*◌, ◌≡◌, Bool, true, false, List, [], ◌∷◌, ◌++◌, Option, none, some, ◌==◌, if◌then◌else◌,
}
use distributed_queue_system.Text.{codes, print_decimal}
use distributed_queue_system.Proto.{type_code, sendjob_nointer, sendjob_inter, sz_path, num_path}
use distributed_queue_system.Proto.Memory.{Msg, strncpy}
use distributed_queue_system.Proto.Getters.{
  get_type, get_exec_jid, get_exec_file_exec, get_exec_addr_port, get_exec_addr_ipadd,
  get_exec_addr_file_exec,
}
use distributed_queue_system.ExecServer.{Status, exited, killed, other}
use distributed_queue_system.ExecServer.Arguments.{args, c_string}

-- What a file descriptor stands for: the execution server's own terminal, a file that is opened to
-- append, /dev/null, or a connection to an address and a port.
pub data Place : Type 0 where
  terminal : Place
  log_file : (name : List ℕ) → Place
  null_device : Place
  connection : (addr port : ℕ) → Place

-- The standard descriptors of a process and its directory: `none` is the one it started in.
pub record Process : Type 0 where
  pub stdin : Place
  pub stdout : Place
  pub stderr : Place
  pub wdir : Option (List ℕ)

-- How gethostbyaddr and connect end.
pub data Reached : Type 0 where
  no_host refused connected : Reached

-- What the system allows: whether a file, and /dev/null, can be opened, each dup2 of an open
-- descriptor and the chdir succeed, how the connection to the client goes, and whether execvp finds
-- a program that it can run.
pub record System : Type 0 where
  pub opens : List ℕ → Bool
  pub null_opens : Bool
  pub dup_out : Bool
  pub dup_err : Bool
  pub dup_in : Bool
  pub changes_dir : List ℕ → Bool
  pub reached : Reached
  pub runs : List (List ℕ) → Bool

-- The child's end as far as exec_server.c decides it: another program runs in a process with its
-- arguments, the child exits, an assertion fails, or execvp is called without a program's name.
pub data ChildEnd : Type 0 where
  executes : Process → List (List ℕ) → ChildEnd
  exits : ℕ → ChildEnd
  asserts : ChildEnd
  no_program : ChildEnd

-- The names that sprintf makes, "cout-%d.log" and "cerr-%d.log".
unfoldable pub log_name : (start : List ℕ) → ℕ → List ℕ
log_name start jobid = start ++ (print_decimal jobid ++ codes ".log")

abbrev pub out_name : ℕ → List ℕ
out_name jobid = log_name (codes "cout-") jobid

abbrev pub err_name : ℕ → List ℕ
err_name jobid = log_name (codes "cerr-") jobid

-- The chdir at the end of both functions, to the directory up to its terminator.
abbrev pub enter_dir : System → List ℕ → Process → Process
enter_dir sys dir p =
    if sys.changes_dir (c_string dir) then record p { wdir = some (c_string dir) } else p

-- setFDsNoIter: a step that fails ends it, and leaves the descriptors as they are then.
unfoldable pub set_fds_no_iter : System → Msg → Process → Process
unfolding log_name
set_fds_no_iter sys pkg p =
    let out = out_name (get_exec_jid pkg) in
    let err = err_name (get_exec_jid pkg) in
    let p₁ = record p { stdout = log_file out } in
    let p₂ = record p₁ { stderr = log_file err } in
    let p₃ = record p₂ { stdin = null_device } in
    if sys.opens out
    then if sys.opens err
      then if sys.null_opens
        then if sys.dup_out
          then if sys.dup_err
            then if sys.dup_in then enter_dir sys (get_exec_file_exec pkg).working_dir p₃ else p₂
            else p₁
          else p
        else p
      else p
    else p

-- socketPortConnect: `none` where the child exits with 0; a connection, or -1 for a failure.
unfoldable pub socket_port_connect : System → (port addr : ℕ) → Option (Option Place)
socket_port_connect sys port addr = elim sys.reached [
  | no_host ↦ none
  | refused ↦ some none
  | connected ↦ some (some (connection addr port))
]

-- setFDsIter: dup2 fails on -1, so that nothing is changed then. `none` is an exit with 0.
unfoldable pub set_fds_iter : System → Msg → Process → Option Process
unfolding socket_port_connect
set_fds_iter sys pkg p =
    elim (socket_port_connect sys (get_exec_addr_port pkg) (get_exec_addr_ipadd pkg)) [
      | none ↦ none
      | some none ↦ some p
      | some (some sock) ↦
          let p₁ = record p { stdout = sock } in
          let p₂ = record p₁ { stderr = sock } in
          let p₃ = record p₂ { stdin = sock } in
          some (
            if sys.dup_out
            then if sys.dup_err
              then if sys.dup_in
                then enter_dir sys (get_exec_addr_file_exec pkg).working_dir p₃
                else p₂
              else p₁
            else p)
    ]

-- The end of consumeJob, and the exit with 40 after it: execvp on the words of the line's copy.
unfoldable pub execute : System → List ℕ → Process → ChildEnd
unfolding args
execute sys line p = elim (args (strncpy (sz_path * num_path) line)) [
  | [] ↦ no_program
  | word ∷ words ↦ if sys.runs (word ∷ words) then executes p (word ∷ words) else exits 40
]

-- consumeJob: neither function's failure keeps it from going on.
unfoldable pub consume_job : System → Msg → Process → ChildEnd
unfolding execute set_fds_no_iter set_fds_iter
consume_job sys pkg p =
    if get_type pkg == type_code sendjob_nointer
    then execute sys (get_exec_file_exec pkg).exec_file (set_fds_no_iter sys pkg p)
    else if get_type pkg == type_code sendjob_inter
    then elim (set_fds_iter sys pkg p) [
      | none ↦ exits 0
      | some p' ↦ execute sys (get_exec_addr_file_exec pkg).exec_file p'
    ]
    else asserts

-- What `wait` gives the parent: how the job's own program ended, the exit status, SIGABRT for an
-- assertion, and `crash` for the call that execvp's documentation does not allow.
unfoldable pub child_status : (ended crash : Status) → ChildEnd → Status
child_status ended crash (executes p words) = ended
child_status ended crash (exits code) = exited code
child_status ended crash asserts = killed 6
child_status ended crash no_program = crash
