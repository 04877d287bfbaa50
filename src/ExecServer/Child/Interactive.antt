-- ===== src/ExecServer/Child/Interactive.antt =====
-- An interactive job, from the client's line to the program that the child becomes.
use distributed_queue_system.Base.{
  ℕ, ◌-◌, ◌*◌, ◌^◌, ◌<◌, ◌≡◌, ◌≢◌, ap, ◌∙◌, true, false, List, [], some, arith, length, take, ◌==◌,
  All,
}
use distributed_queue_system.Proto.{arg_max, type_code, sendjob_inter, sz_path, num_path}
use distributed_queue_system.Proto.Memory.{Msg, strncpy}
use distributed_queue_system.Proto.Getters.{
  get_type, get_exec_addr_port, get_exec_addr_ipadd, get_exec_addr_file_exec,
}
use distributed_queue_system.Proto.RoundTrip.{u16_mod, ExecAddr}
use distributed_queue_system.Server.Reply.{Env}
use distributed_queue_system.Server.Submit.{inter_job}
use distributed_queue_system.Server.Dispatch.{job_message}
use distributed_queue_system.Server.Relay.{relay_inter}
use distributed_queue_system.Client.{get_args_submit_int}
use distributed_queue_system.ExecServer.Arguments.{c_string}
use distributed_queue_system.ExecServer.Words.{words}
use distributed_queue_system.ExecServer.Child.{
  System, Process, connection, connected, executes, socket_port_connect, set_fds_iter, consume_job,
}
use distributed_queue_system.ExecServer.Child.Delivery.{
  c_string-strncpy, args-strncpy, execute-runs, take-ne-nil,
}

-- A system on which the client is reached, and that allows all that the child asks for.
pub record Connects (sys : System) (dir : List ℕ) (argv : List (List ℕ)) : Type 0 where
  pub reaches : sys.reached ≡ connected
  pub dup_out : sys.dup_out ≡ true
  pub dup_err : sys.dup_err ≡ true
  pub dup_in : sys.dup_in ≡ true
  pub changes_dir : sys.changes_dir dir ≡ true
  pub runs : sys.runs argv ≡ true

-- The process of an interactive job, which talks to its client.
abbrev pub talking_process : (addr port : ℕ) → (dir : List ℕ) → Process
talking_process addr port dir = record {
  stdin = connection addr port;
  stdout = connection addr port;
  stderr = connection addr port;
  wdir = some dir;
}

set_fds_iter-talking_process :
    (sys : System) (m : Msg) (p : Process) (addr port : ℕ) (dir : List ℕ) (argv : List (List ℕ))
    → get_exec_addr_port m ≡ port
    → get_exec_addr_ipadd m ≡ addr
    → c_string (get_exec_addr_file_exec m).working_dir ≡ dir
    → Connects sys dir argv
    → set_fds_iter sys m p ≡ some (talking_process addr port dir)
unfolding set_fds_iter socket_port_connect
set_fds_iter-talking_process sys m p addr port dir argv hp ha d c =
    ground (arith, hp, ha, d, c.reaches, c.dup_out, c.dup_err, c.dup_in, c.changes_dir)

consume_job-ExecAddr :
    (sys : System) (m : Msg) (p : Process) (line dir : List ℕ) (addr port jobid : ℕ)
    → get_type m ≡ type_code sendjob_inter
    → ExecAddr m line dir addr port jobid
    → length line < sz_path * num_path
    → length dir < sz_path
    → All (λ c. (c == 0) ≡ false) line
    → All (λ c. (c == 0) ≡ false) dir
    → words line ≢ []
    → Connects sys dir (take (arg_max - 1) (words line))
    → consume_job sys m p
      ≡ executes (talking_process addr port dir) (take (arg_max - 1) (words line))
unfolding consume_job
consume_job-ExecAddr sys m p line dir addr port jobid t x hl hd zl zd ne c =
    let set =
      set_fds_iter-talking_process sys m p addr port dir (take 19 (words line)) x.port_read
        x.addr_read (ap c_string x.dir_read ∙ c_string-strncpy 256 dir hd zd) c in
    rw (t, set, x.exec_read)
      (execute-runs sys (strncpy 256 line) (talking_process addr port dir) (take 19 (words line))
        (args-strncpy line hl zl) (take-ne-nil 18 (words line) ne) c.runs)

-- The child that is given the message for a client's interactive job, whose line and directory are
-- shorter than 256 bytes and hold no 0, whose line has a word, and whose address is not 0, on a
-- system that reaches the client there and allows all that is asked: it runs the first 19 words of
-- the line in the directory, and reads from the connection to the client's address and port and
-- writes its output and its errors to it.
pub consume_job_connected :
    (e : Env) (client_pkg server_pkg : Msg) (line dir : List ℕ) (addr port jobid : ℕ) (sys : System)
    (p : Process)
    → addr ≢ 0
    → addr < 2 ^ 32
    → port < u16_mod
    → jobid < u16_mod
    → length line < sz_path * num_path
    → length dir < sz_path
    → All (λ c. (c == 0) ≡ false) line
    → All (λ c. (c == 0) ≡ false) dir
    → words line ≢ []
    → Connects sys dir (take (arg_max - 1) (words line))
    → consume_job sys
        (job_message server_pkg
          (record (inter_job e (get_args_submit_int client_pkg line dir addr port)) { id = jobid }))
        p
      ≡ executes (talking_process addr port dir) (take (arg_max - 1) (words line))
unfolding get_args_submit_int
consume_job_connected e client_pkg server_pkg line dir addr port jobid sys p nz ha hp hj hl hd zl zd
      ne c =
    let (h, x) = relay_inter e client_pkg server_pkg line dir addr port jobid nz ha hp hj in
    consume_job-ExecAddr sys _ p line dir addr port jobid h.type_read x hl hd zl zd ne c
