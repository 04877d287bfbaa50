-- ===== src/ExecServer/Child/Delivery.antt =====
-- A job that is not interactive, from the client's line to the program that the child becomes.
use distributed_queue_system.Base.{
  ℕ, zero, suc, ◌-◌, ◌*◌, ◌<◌, ◌≡◌, ◌≢◌, refl, ap, ◌∙◌, true, false, List, [], ◌∷◌, some, arith,
  length, take, ◌==◌, All,
}
use distributed_queue_system.Proto.{arg_max, type_code, sendjob_nointer, sz_path, num_path}
use distributed_queue_system.Proto.Memory.{Msg, strncpy, strncpy-strncpy}
use distributed_queue_system.Proto.Getters.{get_type, get_exec_jid, get_exec_file_exec}
use distributed_queue_system.Proto.RoundTrip.{u16_mod, Exec}
use distributed_queue_system.Server.Reply.{Env}
use distributed_queue_system.Server.Submit.{no_inter_job}
use distributed_queue_system.Server.Dispatch.{job_message}
use distributed_queue_system.Server.Relay.{relay_no_inter}
use distributed_queue_system.Client.{get_args_submit}
use distributed_queue_system.ExecServer.Arguments.{args, c_string}
use distributed_queue_system.ExecServer.Words.{words, args_lem}
use distributed_queue_system.ExecServer.Child.{
  System, Process, log_file, null_device, executes, out_name, err_name, set_fds_no_iter, execute,
  consume_job,
}

-- A text that fits with its terminator is read back from the bytes of strncpy.
pub c_string-strncpy :
    (n : ℕ) (s : List ℕ) → length s < n → All (λ c. (c == 0) ≡ false) s → c_string (strncpy n s) ≡ s
unfolding c_string strncpy
c_string-strncpy zero s h a = absurd (omega arith)
c_string-strncpy (suc n) [] h a = refl
c_string-strncpy (suc n) (c ∷ s) h (z, a) = ground (arith, z, c_string-strncpy n s (omega arith) a)

-- A system that allows all that the child asks for on behalf of a job.
pub record Allows (sys : System) (jobid : ℕ) (dir : List ℕ) (argv : List (List ℕ)) : Type 0 where
  pub out_opens : sys.opens (out_name jobid) ≡ true
  pub err_opens : sys.opens (err_name jobid) ≡ true
  pub null_opens : sys.null_opens ≡ true
  pub dup_out : sys.dup_out ≡ true
  pub dup_err : sys.dup_err ≡ true
  pub dup_in : sys.dup_in ≡ true
  pub changes_dir : sys.changes_dir dir ≡ true
  pub runs : sys.runs argv ≡ true

-- The process of a job that is not interactive.
abbrev pub job_process : ℕ → List ℕ → Process
job_process jobid dir = record {
  stdin = null_device;
  stdout = log_file (out_name jobid);
  stderr = log_file (err_name jobid);
  wdir = some dir;
}

set_fds_no_iter-job_process :
    (sys : System) (pkg : Msg) (p : Process) (jobid : ℕ) (dir : List ℕ) (argv : List (List ℕ))
    → get_exec_jid pkg ≡ jobid
    → c_string (get_exec_file_exec pkg).working_dir ≡ dir
    → Allows sys jobid dir argv
    → set_fds_no_iter sys pkg p ≡ job_process jobid dir
unfolding set_fds_no_iter
set_fds_no_iter-job_process sys pkg p jobid dir argv j d a = ground (
  arith, j, d, a.out_opens, a.err_opens, a.null_opens, a.dup_out, a.dup_err, a.dup_in,
  a.changes_dir,
)

pub execute-runs :
    (sys : System) (line : List ℕ) (p : Process) (argv : List (List ℕ))
    → args (strncpy (sz_path * num_path) line) ≡ argv
    → argv ≢ []
    → sys.runs argv ≡ true
    → execute sys line p ≡ executes p argv
unfolding execute
execute-runs sys line p [] e n r = absurd (n refl)
execute-runs sys line p (w ∷ ws) e n r = ground (arith, e, r)

pub take-ne-nil : (n : ℕ) (ws : List (List ℕ)) → ws ≢ [] → take (suc n) ws ≢ []
take-ne-nil n [] h e = h refl
take-ne-nil n (w ∷ ws) h e = cc

pub args-strncpy :
    (line : List ℕ)
    → length line < sz_path * num_path
    → All (λ c. (c == 0) ≡ false) line
    → args (strncpy (sz_path * num_path) (strncpy (sz_path * num_path) line))
      ≡ take (arg_max - 1) (words line)
args-strncpy line h z =
    ap args (strncpy-strncpy 256 line)
    ∙ (args_lem (strncpy 256 line) ∙ ap (λ s. take 19 (words s)) (c_string-strncpy 256 line h z))

pub consume_job-Exec :
    (sys : System) (m : Msg) (p : Process) (line dir : List ℕ) (jobid : ℕ)
    → get_type m ≡ type_code sendjob_nointer
    → Exec m line dir jobid
    → length line < sz_path * num_path
    → length dir < sz_path
    → All (λ c. (c == 0) ≡ false) line
    → All (λ c. (c == 0) ≡ false) dir
    → words line ≢ []
    → Allows sys jobid dir (take (arg_max - 1) (words line))
    → consume_job sys m p ≡ executes (job_process jobid dir) (take (arg_max - 1) (words line))
unfolding consume_job
consume_job-Exec sys m p line dir jobid t x hl hd zl zd ne a =
    rw (t, x.exec_read)
      (ap (execute sys (strncpy 256 line)) (
          set_fds_no_iter-job_process sys m p jobid dir (take 19 (words line)) x.jid_read
            (ap c_string x.dir_read ∙ c_string-strncpy 256 dir hd zd) a)
        ∙ execute-runs sys (strncpy 256 line) (job_process jobid dir) (take 19 (words line))
            (args-strncpy line hl zl) (take-ne-nil 18 (words line) ne) a.runs)

-- The child that is given the message for a client's job, whose line and directory are shorter
-- than 256 bytes and hold no 0, whose line has a word, and for which the system allows all that
-- is asked: it runs the first 19 words of the line in the directory, with its output in the two
-- files that are named after the id and nothing to read, whatever process it was before.
pub consume_job_delivered :
    (e : Env) (client_pkg server_pkg : Msg) (line dir : List ℕ) (jobid : ℕ) (sys : System)
    (p : Process)
    → jobid < u16_mod
    → length line < sz_path * num_path
    → length dir < sz_path
    → All (λ c. (c == 0) ≡ false) line
    → All (λ c. (c == 0) ≡ false) dir
    → words line ≢ []
    → Allows sys jobid dir (take (arg_max - 1) (words line))
    → consume_job sys
        (job_message server_pkg
          (record (no_inter_job e (get_args_submit client_pkg line dir)) { id = jobid }))
        p
      ≡ executes (job_process jobid dir) (take (arg_max - 1) (words line))
unfolding get_args_submit
consume_job_delivered e client_pkg server_pkg line dir jobid sys p hj hl hd zl zd ne a =
    let (h, x) = relay_no_inter e client_pkg server_pkg line dir jobid hj in
    consume_job-Exec sys _ p line dir jobid h.type_read x hl hd zl zd ne a
