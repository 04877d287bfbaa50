-- ===== src/Proto.antt =====
-- PROTO_DIST_QUEUE.h: the constants, the layout of `Msg` and the bytes of a message.
pub mod Memory
pub mod Sizeof
pub mod Getters
pub mod Setters
pub mod RoundTrip
use distributed_queue_system.Base.{ℕ}

-- SZ_PATH, NUM_PATH and ARG_MAX
abbrev pub sz_path : ℕ
sz_path = 256

abbrev pub num_path : ℕ
num_path = 1

abbrev pub arg_max : ℕ
arg_max = 20

-- VER_1
abbrev pub ver_1 : ℕ
ver_1 = 0x8001

-- The kinds of message, `Type`.
pub data MsgType : Type 0 where
  sub_no_inter sub_interactive sub_resp jobstate jobstate_resp questate questate_resp : MsgType
  unsub unsub_resp sendjob_nointer sendjob_inter ch_exec_ser ch_exec_ser_ack : MsgType
  job_req job_done job_run job_sig client_closed server_closed bad_params : MsgType

-- The value of the enumerator, which stands in the header's `type`.
abbrev pub type_code : MsgType → ℕ
type_code sub_no_inter = 0
type_code sub_interactive = 1
type_code sub_resp = 2
type_code jobstate = 3
type_code jobstate_resp = 4
type_code questate = 5
type_code questate_resp = 6
type_code unsub = 7
type_code unsub_resp = 8
type_code sendjob_nointer = 9
type_code sendjob_inter = 10
type_code ch_exec_ser = 11
type_code ch_exec_ser_ack = 12
type_code job_req = 13
type_code job_done = 14
type_code job_run = 15
type_code job_sig = 16
type_code client_closed = 17
type_code server_closed = 18
type_code bad_params = 19

-- JOB_STATE
pub data JobState : Type 0 where
  wait run finished unsubmited signaled error : JobState

abbrev pub state_code : JobState → ℕ
state_code wait = 0
state_code run = 1
state_code finished = 2
state_code unsubmited = 3
state_code signaled = 4
state_code error = 5
