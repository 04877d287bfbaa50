-- ===== src/Server/Submit.antt =====
-- submitNoInter, submitInter and newJob of main_server.c.
pub mod Laws
use distributed_queue_system.Base.{
  ℕ, ◌+◌, ◌*◌, Bool, true, List, [], ◌∷◌, Option, none, some, update,
}
use distributed_queue_system.Job.{Job}
use distributed_queue_system.History.{set_params_new_job_history, add_job_history}
use distributed_queue_system.Proto.{sz_path, num_path}
use distributed_queue_system.Proto.Memory.{Msg, strncpy}
use distributed_queue_system.Proto.Getters.{
  FileExec, get_exec_file_exec, get_exec_addr_file_exec, get_exec_addr_port, get_exec_addr_ipadd,
}
use distributed_queue_system.Proto.Setters.{set_job_id}
use distributed_queue_system.Server.{MainServer, next_put_queue, put_section}
use distributed_queue_system.Server.Reply.{Result, done, waits, Env}

-- newJob's history section: the new id and the server.
unfoldable pub register : Env → (queue_idx ipaddr : ℕ) → MainServer → ℕ × MainServer
register e queue_idx ipaddr s =
    let (id, h) =
      add_job_history (set_params_new_job_history e.history_block queue_idx ipaddr e.now)
        s.history in
    (id, record s { history = h })

-- The rest of newJob, with the queue that it was given: the answer is sent before the job is put.
unfoldable pub new_job_in : Env → Job → ℕ × MainServer → Result
unfolding register put_section
new_job_in e job (queue_idx, s) =
    let (id, s₁) = register e queue_idx job.ipaddr s in
    let s₂ : MainServer = record s₁ {
      heap = update s₁.heap e.addr (some (record job { id = id }));
    } in
    elim (put_section queue_idx e.addr s₂) [
      | none ↦ waits (set_job_id e.pkg id ∷ []) s₂
      | some s₃ ↦ done (set_job_id e.pkg id ∷ []) true s₃
    ]

-- newJob, for the job at `e.addr`.
unfoldable pub new_job : Env → Job → MainServer → Result
unfolding new_job_in
new_job e job s = new_job_in e job (next_put_queue s)

unfoldable pub no_inter_job : Env → Msg → Job
no_inter_job e pkg = record e.job_block {
  port = 0;
  ipaddr = 0;
  exec_file = strncpy (sz_path * num_path) (get_exec_file_exec pkg).exec_file;
  working_dir = strncpy sz_path (get_exec_file_exec pkg).working_dir;
}

unfoldable pub submit_no_inter : Env → Msg → MainServer → Result
unfolding new_job no_inter_job
submit_no_inter e pkg s = new_job e (no_inter_job e pkg) s

unfoldable pub inter_job : Env → Msg → Job
inter_job e pkg = record e.job_block {
  port = get_exec_addr_port pkg;
  ipaddr = get_exec_addr_ipadd pkg;
  exec_file = strncpy (sz_path * num_path) (get_exec_addr_file_exec pkg).exec_file;
  working_dir = strncpy sz_path (get_exec_addr_file_exec pkg).working_dir;
}

unfoldable pub submit_inter : Env → Msg → MainServer → Result
unfolding new_job inter_job
submit_inter e pkg s = new_job e (inter_job e pkg) s
