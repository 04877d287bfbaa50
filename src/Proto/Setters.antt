-- ===== src/Proto/Setters.antt =====
-- The setters of PROTO_DIST_QUEUE.h: each writes the header and its fields into the message's memory.
use distributed_queue_system.Base.{ℕ, ◌+◌, ◌*◌, ◌||◌, List, ◌==◌, if◌then◌else◌}
use distributed_queue_system.Proto.{
  MsgType, type_code, state_code, sz_path, num_path, ver_1, sub_no_inter, sub_interactive, sub_resp,
  jobstate, jobstate_resp, questate, questate_resp, unsub, unsub_resp, sendjob_nointer,
  sendjob_inter, ch_exec_ser, ch_exec_ser_ack, job_req, job_done, job_run, job_sig, client_closed,
  server_closed, bad_params, run, finished, signaled, error,
}
use distributed_queue_system.Proto.Sizeof
use distributed_queue_system.Proto.Memory.{
  Msg, store8, store16, store32, store_bytes, htons, strncpy,
}

-- The three header fields, which each setter writes: `version`, `type` and `sz8`.
unfoldable pub set_header : Msg → MsgType → ℕ → Msg
set_header m type sz8 =
    store16 (store8 (store16 m 2 (htons ver_1)) 4 (type_code type)) 0 (htons sz8)

-- A message that is a header and no more.
unfoldable pub set_bad_params : Msg → Msg
unfolding set_header
set_bad_params m = set_header m bad_params Sizeof.header

unfoldable pub set_check_exec_server : Msg → Msg
unfolding set_header
set_check_exec_server m = set_header m ch_exec_ser Sizeof.header

unfoldable pub set_closed_connection : Msg → Msg
unfolding set_header
set_closed_connection m = set_header m client_closed Sizeof.header

unfoldable pub set_closed_connection_exec_server : Msg → Msg
unfolding set_header
set_closed_connection_exec_server m = set_header m server_closed Sizeof.header

unfoldable pub set_job_req : Msg → Msg
unfolding set_header
set_job_req m = set_header m job_req Sizeof.header

unfoldable pub set_check_exec_server_ack : Msg → Msg
unfolding set_header
set_check_exec_server_ack m = set_header m ch_exec_ser_ack Sizeof.header

-- A message with a job id.
unfoldable pub set_unsubmit : Msg → ℕ → Msg
unfolding set_header
set_unsubmit m jobid =
    store16 (set_header m unsub_resp (Sizeof.header + Sizeof.job_id)) 5 (htons jobid)

unfoldable pub set_job_id : Msg → ℕ → Msg
unfolding set_header
set_job_id m jobid = store16 (set_header m sub_resp (Sizeof.header + Sizeof.job_id)) 5 (htons jobid)

unfoldable pub set_job_state_client : Msg → ℕ → Msg
unfolding set_header
set_job_state_client m jobid =
    store16 (set_header m jobstate (Sizeof.header + Sizeof.job_id)) 5 (htons jobid)

unfoldable pub set_unsubmit_client : Msg → ℕ → Msg
unfolding set_header
set_unsubmit_client m jobid =
    store16 (set_header m unsub (Sizeof.header + Sizeof.job_id)) 5 (htons jobid)

-- A queue's state: the server's answer and the client's question.
unfoldable pub set_queue_state : Msg → (state queueid : ℕ) → Msg
unfolding set_header
set_queue_state m state queueid =
    store8 (store8 (set_header m questate_resp (Sizeof.header + Sizeof.queue_state)) 6 queueid) 5
      state

unfoldable pub set_queue_state_client : Msg → ℕ → Msg
unfolding set_header
set_queue_state_client m queueid =
    store8 (set_header m questate (Sizeof.header + Sizeof.queue_id)) 5 queueid

-- The fields of `Job_State`.
unfoldable pub store_job_state : Msg → (jobid state exit_value : ℕ) → Msg
store_job_state m jobid state exit_value =
    store8 (store8 (store16 m 6 (htons jobid)) 5 state) 8 exit_value

unfoldable pub set_job_state : Msg → (jobid state exit_value : ℕ) → Msg
unfolding set_header store_job_state
set_job_state m jobid state exit_value =
    store_job_state (set_header m jobstate_resp (Sizeof.header + Sizeof.job_state)) jobid state
      exit_value

unfoldable pub set_job_run : Msg → ℕ → Msg
unfolding set_header store_job_state
set_job_run m jobid =
    store_job_state (set_header m job_run (Sizeof.header + Sizeof.job_state)) jobid (state_code run)
      0

-- 40 and 41 are the exit statuses of a failed exec and of a failed fork.
unfoldable pub set_job_done : Msg → (jobid e_status : ℕ) → Msg
unfolding set_header store_job_state
set_job_done m jobid e_status =
    store_job_state (set_header m job_done (Sizeof.header + Sizeof.job_state)) jobid
      (if e_status == 40 || e_status == 41 then state_code error else state_code finished) e_status

unfoldable pub set_job_signaled : Msg → (jobid e_status : ℕ) → Msg
unfolding set_header store_job_state
set_job_signaled m jobid e_status =
    store_job_state (set_header m job_sig (Sizeof.header + Sizeof.job_state)) jobid
      (state_code signaled) e_status

-- `File_Exec` at an offset, filled by two calls of strncpy.
unfoldable pub store_file_exec : Msg → ℕ → (file_ex working_dir : List ℕ) → Msg
store_file_exec m off file_ex working_dir =
    store_bytes (store_bytes m off (strncpy (sz_path * num_path) file_ex))
      (off + sz_path * num_path) (strncpy sz_path working_dir)

-- A job that is not interactive, from the client and to the execution server.
unfoldable pub store_job_exec : Msg → (file_ex working_dir : List ℕ) → ℕ → Msg
store_job_exec m file_ex working_dir jobid =
    store16 (store_file_exec m 7 file_ex working_dir) 5 (htons jobid)

unfoldable pub set_file_exec_no_inter : Msg → (file_ex working_dir : List ℕ) → ℕ → Msg
unfolding set_header store_job_exec
set_file_exec_no_inter m file_ex working_dir jobid =
    store_job_exec (set_header m sendjob_nointer (Sizeof.header + Sizeof.job_id + Sizeof.file_exec))
      file_ex working_dir jobid

unfoldable pub set_file_exec_no_inter_client : Msg → (file_ex working_dir : List ℕ) → ℕ → Msg
unfolding set_header store_job_exec
set_file_exec_no_inter_client m file_ex working_dir jobid =
    store_job_exec (set_header m sub_no_inter (Sizeof.header + Sizeof.job_id + Sizeof.file_exec))
      file_ex working_dir jobid

-- An interactive job.
unfoldable pub store_job_exec_addr :
    Msg → (file_ex working_dir : List ℕ) (addr port jobid : ℕ) → Msg
store_job_exec_addr m file_ex working_dir addr port jobid =
    store16 (store32 (store16 (store_file_exec m 13 file_ex working_dir) 5 (htons jobid)) 9 addr) 7
      port

unfoldable pub set_file_exec_inter :
    Msg → (file_ex working_dir : List ℕ) (addr port jobid : ℕ) → Msg
unfolding set_header store_job_exec_addr
set_file_exec_inter m file_ex working_dir addr port jobid =
    store_job_exec_addr
      (set_header m sendjob_inter (Sizeof.header + Sizeof.job_id + 4 + 2 + Sizeof.file_exec))
      file_ex working_dir addr port jobid

unfoldable pub set_file_exec_inter_client :
    Msg → (file_ex working_dir : List ℕ) (addr port jobid : ℕ) → Msg
unfolding set_header store_job_exec_addr
set_file_exec_inter_client m file_ex working_dir addr port jobid =
    store_job_exec_addr
      (set_header m sub_interactive (Sizeof.header + Sizeof.job_id + 4 + 2 + Sizeof.file_exec))
      file_ex working_dir addr port jobid
