-- ===== src/Proto/Getters.antt =====
-- The getters of PROTO_DIST_QUEUE.h, at the offsets of the packed structs.
use distributed_queue_system.Base.{ℕ, ◌+◌, ◌*◌, List}
use distributed_queue_system.Proto.{sz_path, num_path}
use distributed_queue_system.Proto.Memory.{Msg, load16, load32, load_bytes, ntohs}

-- `Header`: sz8, version, type.
abbrev pub get_size8 : Msg → ℕ
get_size8 m = ntohs (load16 m 0)

abbrev pub get_version : Msg → ℕ
get_version m = ntohs (load16 m 2)

abbrev pub get_type : Msg → ℕ
get_type m = m 4

-- `JobID` and `QueueID`
abbrev pub get_job_id : Msg → ℕ
get_job_id m = ntohs (load16 m 5)

abbrev pub get_queue_id : Msg → ℕ
get_queue_id m = m 5

-- `Job_State`: state, jobid, exit_value.
abbrev pub get_job_state_state : Msg → ℕ
get_job_state_state m = m 5

abbrev pub get_job_state_id : Msg → ℕ
get_job_state_id m = ntohs (load16 m 6)

abbrev pub get_job_state_exit_value : Msg → ℕ
get_job_state_exit_value m = m 8

-- `Queue_State`: state, queueid.
abbrev pub get_queue_state_state : Msg → ℕ
get_queue_state_state m = m 5

abbrev pub get_queue_state_id : Msg → ℕ
get_queue_state_id m = m 6

-- `File_Exec`, which the code hands over by its address.
pub record FileExec : Type 0 where
  pub exec_file : List ℕ
  pub working_dir : List ℕ

-- `Job_Exec`: jobid, file_exec.
abbrev pub get_exec_jid : Msg → ℕ
get_exec_jid m = ntohs (load16 m 5)

abbrev pub get_exec_file_exec : Msg → FileExec
get_exec_file_exec m = record {
  exec_file = load_bytes m 7 (sz_path * num_path);
  working_dir = load_bytes m (7 + sz_path * num_path) sz_path;
}

-- `Job_Exec_Addr`: jobid, port, ipaddr, file_exec. The port and the address are in network order
-- already, and are not converted.
abbrev pub get_exec_addr_jid : Msg → ℕ
get_exec_addr_jid m = ntohs (load16 m 5)

abbrev pub get_exec_addr_port : Msg → ℕ
get_exec_addr_port m = load16 m 7

abbrev pub get_exec_addr_ipadd : Msg → ℕ
get_exec_addr_ipadd m = load32 m 9

abbrev pub get_exec_addr_file_exec : Msg → FileExec
get_exec_addr_file_exec m = record {
  exec_file = load_bytes m 13 (sz_path * num_path);
  working_dir = load_bytes m (13 + sz_path * num_path) sz_path;
}
