-- ===== src/Proto/RoundTrip.antt =====
-- What the getters read back from a message that a setter wrote.
use distributed_queue_system.Base.{
  ℕ, ◌+◌, ◌*◌, ◌^◌, ◌≤◌, ◌<◌, ◌≡◌, ◌∙◌, ap, sym, List, arith, ◌==◌, ◌||◌, if◌then◌else◌,
}
use distributed_queue_system.Proto.{
  MsgType, type_code, state_code, sz_path, num_path, sendjob_inter, sub_interactive,
  sendjob_nointer, sub_no_inter, job_done, finished, error, jobstate_resp, sub_resp, questate_resp,
}
use distributed_queue_system.Proto.Memory.{
  Msg, store_bytes, load_bytes, strncpy, length-strncpy, store_bytes-below, load_bytes-ext,
  load_bytes-store_bytes,
}
use distributed_queue_system.Proto.Getters.{
  get_size8, get_type, get_job_id, get_job_state_state, get_job_state_id, get_job_state_exit_value,
  get_queue_state_state, get_queue_state_id, get_exec_jid, get_exec_file_exec, get_exec_addr_jid,
  get_exec_addr_port, get_exec_addr_ipadd, get_exec_addr_file_exec,
}
use distributed_queue_system.Proto.Setters.{
  set_header, set_job_id, set_queue_state, set_job_state, set_job_done, store_file_exec,
  set_file_exec_no_inter, set_file_exec_no_inter_client, set_file_exec_inter,
  set_file_exec_inter_client, store_job_exec, store_job_exec_addr,
}

abbrev pub u8_mod : ℕ
u8_mod = 256

abbrev pub u16_mod : ℕ
u16_mod = 65536

-- The type and size that a receiver reads in the header.
pub record Header (m : Msg) (type : MsgType) (sz8 : ℕ) : Type 0 where
  pub type_read : get_type m ≡ type_code type
  pub size_read : get_size8 m ≡ sz8

-- What a receiver reads in a message that carries an interactive job.
pub record ExecAddr (m : Msg) (file_ex working_dir : List ℕ) (addr port jobid : ℕ) : Type 0 where
  pub jid_read : get_exec_addr_jid m ≡ jobid
  pub port_read : get_exec_addr_port m ≡ port
  pub addr_read : get_exec_addr_ipadd m ≡ addr
  pub exec_read : (get_exec_addr_file_exec m).exec_file ≡ strncpy (sz_path * num_path) file_ex
  pub dir_read : (get_exec_addr_file_exec m).working_dir ≡ strncpy sz_path working_dir

-- The same for a job that is not interactive.
pub record Exec (m : Msg) (file_ex working_dir : List ℕ) (jobid : ℕ) : Type 0 where
  pub jid_read : get_exec_jid m ≡ jobid
  pub exec_read : (get_exec_file_exec m).exec_file ≡ strncpy (sz_path * num_path) file_ex
  pub dir_read : (get_exec_file_exec m).working_dir ≡ strncpy sz_path working_dir

pub set_job_state_lem :
    (m : Msg) (jobid state exit_value : ℕ)
    → jobid < u16_mod
    → state < u8_mod
    → exit_value < u8_mod
    → Header (set_job_state m jobid state exit_value) jobstate_resp 9
      × (get_job_state_id (set_job_state m jobid state exit_value) ≡ jobid)
      × (get_job_state_state (set_job_state m jobid state exit_value) ≡ state)
      × (get_job_state_exit_value (set_job_state m jobid state exit_value) ≡ exit_value)
unfolding set_job_state
set_job_state_lem m jobid state exit_value h k l = omega arith

pub set_queue_state_lem :
    (m : Msg) (state queueid : ℕ)
    → state < u8_mod
    → queueid < u8_mod
    → Header (set_queue_state m state queueid) questate_resp 7
      × (get_queue_state_state (set_queue_state m state queueid) ≡ state)
      × (get_queue_state_id (set_queue_state m state queueid) ≡ queueid)
unfolding set_queue_state
set_queue_state_lem m state queueid h k = omega arith

pub set_job_done_lem :
    (m : Msg) (jobid e_status : ℕ)
    → jobid < u16_mod
    → e_status < u8_mod
    → Header (set_job_done m jobid e_status) job_done 9
      × (get_job_state_id (set_job_done m jobid e_status) ≡ jobid)
      × (get_job_state_exit_value (set_job_done m jobid e_status) ≡ e_status)
      × (get_job_state_state (set_job_done m jobid e_status)
          ≡ (if e_status == 40 || e_status == 41 then state_code error else state_code finished))
unfolding set_job_done
set_job_done_lem m jobid e_status h k = ground arith

pub get_job_id-set_job_id :
    (m : Msg) (jobid : ℕ)
    → jobid < u16_mod
    → Header (set_job_id m jobid) sub_resp 7 × (get_job_id (set_job_id m jobid) ≡ jobid)
unfolding set_job_id
get_job_id-set_job_id m jobid h = omega arith

-- A block of bytes in the memory, written by one call of strncpy and left alone since.
block :
    (m k : Msg) (off : ℕ) (src : List ℕ) (n : ℕ)
    → ((i : ℕ) → off ≤ i → i < off + n → m i ≡ store_bytes k off (strncpy n src) i)
    → load_bytes m off n ≡ strncpy n src
block m k off src n h =
    load_bytes-ext m (store_bytes k off (strncpy n src)) off n h
    ∙ (ap (load_bytes (store_bytes k off (strncpy n src)) off) (sym (length-strncpy n src))
        ∙ load_bytes-store_bytes k off (strncpy n src))

store_file_exec-files :
    (m k : Msg) (off : ℕ) (a b : List ℕ)
    → ((i : ℕ) → off ≤ i → m i ≡ store_file_exec k off a b i)
    → (load_bytes m off (sz_path * num_path) ≡ strncpy (sz_path * num_path) a)
      × (load_bytes m (off + sz_path * num_path) sz_path ≡ strncpy sz_path b)
unfolding store_file_exec
store_file_exec-files m k off a b h = (
  block m k off a 256 (λ i lo hi.
      h i lo
      ∙ store_bytes-below (store_bytes k off (strncpy 256 a)) (off + 256) (strncpy 256 b) i hi),
  block m (store_bytes k off (strncpy 256 a)) (off + 256) b 256 (λ i lo hi. h i (omega arith)),
)

low-store_file_exec :
    (m : Msg) (off : ℕ) (a b : List ℕ) (i : ℕ) → i < off → store_file_exec m off a b i ≡ m i
unfolding store_file_exec
low-store_file_exec m off a b i h = ground (
  arith,
  store_bytes-below (store_bytes m off (strncpy 256 a)) (off + 256) (strncpy 256 b) i,
  store_bytes-below m off (strncpy 256 a) i,
)

type_code-lt : (t : MsgType) → type_code t < u8_mod
type_code-lt MsgType.sub_no_inter = omega arith
type_code-lt _ = omega arith

module _ (m : Msg) (type : MsgType) (sz8 : ℕ) (a b : List ℕ) (jobid : ℕ) (hs : sz8 < u16_mod)
    (hj : jobid < u16_mod) where
  -- What a header and an interactive job's fields read back.
  store_job_exec_addr_lem :
      (addr port : ℕ)
      → addr < 2 ^ 32
      → port < u16_mod
      → let k = store_job_exec_addr (set_header m type sz8) a b addr port jobid in
        Header k type sz8 × ExecAddr k a b addr port jobid
  unfolding store_job_exec_addr set_header
  store_job_exec_addr_lem addr port ha hp =
      let low = low-store_file_exec (set_header m type sz8) 13 a b in
      let files =
        store_file_exec-files (store_job_exec_addr (set_header m type sz8) a b addr port jobid)
          (set_header m type sz8) 13 a b (λ i lo. ground arith) in
      (
        record {
          type_read = ground (arith, low 4, type_code-lt type);
          size_read = ground (arith, low 0, low 1);
        },
        record {
          jid_read = omega arith;
          port_read = omega arith;
          addr_read = omega arith;
          exec_read = files.0;
          dir_read = files.1;
        },
      )

  store_job_exec_lem :
      let k = store_job_exec (set_header m type sz8) a b jobid in
      Header k type sz8 × Exec k a b jobid
  unfolding store_job_exec set_header
  store_job_exec_lem =
      let low = low-store_file_exec (set_header m type sz8) 7 a b in
      let files =
        store_file_exec-files (store_job_exec (set_header m type sz8) a b jobid)
          (set_header m type sz8) 7 a b (λ i lo. ground arith) in
      (
        record {
          type_read = ground (arith, low 4, type_code-lt type);
          size_read = ground (arith, low 0, low 1);
        },
        record { jid_read = omega arith; exec_read = files.0; dir_read = files.1 },
      )

-- Both messages that carry an interactive job read back as they were set.
pub set_file_exec_inter_lem :
    (m : Msg) (a b : List ℕ) (addr port jobid : ℕ)
    → jobid < u16_mod
    → addr < 2 ^ 32
    → port < u16_mod
    → Header (set_file_exec_inter m a b addr port jobid) sendjob_inter 525
      × ExecAddr (set_file_exec_inter m a b addr port jobid) a b addr port jobid
unfolding set_file_exec_inter
set_file_exec_inter_lem m a b addr port jobid hj =
    store_job_exec_addr_lem m sendjob_inter 525 a b jobid (omega arith) hj addr port

pub set_file_exec_inter_client_lem :
    (m : Msg) (a b : List ℕ) (addr port jobid : ℕ)
    → jobid < u16_mod
    → addr < 2 ^ 32
    → port < u16_mod
    → Header (set_file_exec_inter_client m a b addr port jobid) sub_interactive 525
      × ExecAddr (set_file_exec_inter_client m a b addr port jobid) a b addr port jobid
unfolding set_file_exec_inter_client
set_file_exec_inter_client_lem m a b addr port jobid hj =
    store_job_exec_addr_lem m sub_interactive 525 a b jobid (omega arith) hj addr port

pub set_file_exec_no_inter_lem :
    (m : Msg) (a b : List ℕ) (jobid : ℕ)
    → jobid < u16_mod
    → Header (set_file_exec_no_inter m a b jobid) sendjob_nointer 519
      × Exec (set_file_exec_no_inter m a b jobid) a b jobid
unfolding set_file_exec_no_inter
set_file_exec_no_inter_lem m a b jobid =
    store_job_exec_lem m sendjob_nointer 519 a b jobid (omega arith)

pub set_file_exec_no_inter_client_lem :
    (m : Msg) (a b : List ℕ) (jobid : ℕ)
    → jobid < u16_mod
    → Header (set_file_exec_no_inter_client m a b jobid) sub_no_inter 519
      × Exec (set_file_exec_no_inter_client m a b jobid) a b jobid
unfolding set_file_exec_no_inter_client
set_file_exec_no_inter_client_lem m a b jobid =
    store_job_exec_lem m sub_no_inter 519 a b jobid (omega arith)
