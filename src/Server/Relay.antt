-- ===== src/Server/Relay.antt =====
-- A job's way from the client's message through the main server to the message that an execution
-- server gets.
use distributed_queue_system.Base.{ℕ, ◌*◌, ◌^◌, ◌<◌, ◌≡◌, ◌≢◌, List, arith, ◌∙◌, ap, ne→==}
use distributed_queue_system.Proto.{sz_path, num_path, sendjob_inter, sendjob_nointer}
use distributed_queue_system.Proto.Memory.{Msg, strncpy, strncpy-strncpy}
use distributed_queue_system.Proto.Setters.{
  set_file_exec_inter_client, set_file_exec_no_inter_client,
}
use distributed_queue_system.Proto.RoundTrip.{
  u16_mod, Header, ExecAddr, Exec, set_file_exec_inter_lem, set_file_exec_inter_client_lem,
  set_file_exec_no_inter_lem, set_file_exec_no_inter_client_lem,
}
use distributed_queue_system.Server.Reply.{Env}
use distributed_queue_system.Server.Submit.{inter_job, no_inter_job}
use distributed_queue_system.Server.Dispatch.{job_message}

-- The job that submitInter makes of a client's message.
pub inter_job_lem :
    (e : Env) (client_pkg : Msg) (line dir : List ℕ) (addr port : ℕ)
    → addr < 2 ^ 32
    → port < u16_mod
    → inter_job e (set_file_exec_inter_client client_pkg line dir addr port 0)
      ≡ record e.job_block {
        port = port;
        ipaddr = addr;
        exec_file = strncpy (sz_path * num_path) line;
        working_dir = strncpy sz_path dir;
      }
unfolding inter_job
inter_job_lem e client_pkg line dir addr port ha hp =
    let (_, c) =
      set_file_exec_inter_client_lem client_pkg line dir addr port 0 (omega arith) ha hp in
    λ i. record {
      id = e.job_block.id;
      port = c.port_read i;
      ipaddr = c.addr_read i;
      exec_file = (ap (strncpy 256) c.exec_read ∙ strncpy-strncpy 256 line) i;
      working_dir = (ap (strncpy 256) c.dir_read ∙ strncpy-strncpy 256 dir) i;
    }

pub no_inter_job_lem :
    (e : Env) (client_pkg : Msg) (line dir : List ℕ)
    → no_inter_job e (set_file_exec_no_inter_client client_pkg line dir 0) ≡ record e.job_block {
      port = 0;
      ipaddr = 0;
      exec_file = strncpy (sz_path * num_path) line;
      working_dir = strncpy sz_path dir;
    }
unfolding no_inter_job
no_inter_job_lem e client_pkg line dir =
    let (_, c) = set_file_exec_no_inter_client_lem client_pkg line dir 0 (omega arith) in
    λ i. record {
      id = e.job_block.id;
      port = 0;
      ipaddr = 0;
      exec_file = (ap (strncpy 256) c.exec_read ∙ strncpy-strncpy 256 line) i;
      working_dir = (ap (strncpy 256) c.dir_read ∙ strncpy-strncpy 256 dir) i;
    }

-- An interactive job's command line, directory, port, address and id are, in the message for
-- the execution server, what strncpy makes of the client's, whatever was in the messages'
-- memory before, if the address is not 0 and the numbers fit their fields.
pub relay_inter :
    (e : Env) (client_pkg server_pkg : Msg) (line dir : List ℕ) (addr port jobid : ℕ)
    → addr ≢ 0
    → addr < 2 ^ 32
    → port < u16_mod
    → jobid < u16_mod
    → let job = inter_job e (set_file_exec_inter_client client_pkg line dir addr port 0) in
      let out = job_message server_pkg (record job { id = jobid }) in
      Header out sendjob_inter 525 × ExecAddr out line dir addr port jobid
unfolding job_message
relay_inter e client_pkg server_pkg line dir addr port jobid nz ha hp hj =
    let (h, x) =
      set_file_exec_inter_lem server_pkg (strncpy 256 line) (strncpy 256 dir) addr port jobid hj ha
        hp in
    rw (inter_job_lem e client_pkg line dir addr port ha hp, job_message, ne→== addr 0 nz)
      (
        h,
        record {
          jid_read = x.jid_read;
          port_read = x.port_read;
          addr_read = x.addr_read;
          exec_read = x.exec_read ∙ strncpy-strncpy 256 line;
          dir_read = x.dir_read ∙ strncpy-strncpy 256 dir;
        },
      )

-- A job's command line, directory and id are, in the message for the execution server, what
-- strncpy makes of the client's, whatever was in the messages' memory before, if the job is not
-- interactive and the id fits its field.
pub relay_no_inter :
    (e : Env) (client_pkg server_pkg : Msg) (line dir : List ℕ) (jobid : ℕ)
    → jobid < u16_mod
    → let job = no_inter_job e (set_file_exec_no_inter_client client_pkg line dir 0) in
      let out = job_message server_pkg (record job { id = jobid }) in
      Header out sendjob_nointer 519 × Exec out line dir jobid
unfolding job_message
relay_no_inter e client_pkg server_pkg line dir jobid hj =
    let (h, x) =
      set_file_exec_no_inter_lem server_pkg (strncpy 256 line) (strncpy 256 dir) jobid hj in
    rw (no_inter_job_lem e client_pkg line dir) (
      h,
      record {
        jid_read = x.jid_read;
        exec_read = x.exec_read ∙ strncpy-strncpy 256 line;
        dir_read = x.dir_read ∙ strncpy-strncpy 256 dir;
      },
    )
