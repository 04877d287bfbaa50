-- ===== src/Proto/Sizeof.antt =====
-- The sizes of the packed structs of PROTO_DIST_QUEUE.h.
use distributed_queue_system.Base.{ℕ, ◌+◌, ◌*◌}
use distributed_queue_system.Proto.{sz_path, num_path}

abbrev pub header : ℕ
header = 5

abbrev pub file_exec : ℕ
file_exec = sz_path * num_path + sz_path

abbrev pub job_id : ℕ
job_id = 2

abbrev pub queue_id : ℕ
queue_id = 1

abbrev pub job_state : ℕ
job_state = 4

abbrev pub queue_state : ℕ
queue_state = 2

-- The largest member of the union, `Job_Exec_Addr`.
abbrev pub job_exec_addr : ℕ
job_exec_addr = job_id + 2 + 4 + file_exec

-- The header and the union.
abbrev pub msg : ℕ
msg = header + job_exec_addr
