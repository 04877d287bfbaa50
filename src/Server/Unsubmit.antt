-- ===== src/Server/Unsubmit.antt =====
-- unsubmit of main_server.c.
pub mod Laws
use distributed_queue_system.Base.{
  ℕ, Bool, true, false, [], ◌∷◌, Option, none, some, ltb, ◌==◌, if◌then◌else◌,
}
use distributed_queue_system.History.{JobHistory, find_job, unchecked_job, write_entry}
use distributed_queue_system.Proto.{state_code, wait, unsubmited}
use distributed_queue_system.Proto.Setters.{set_bad_params, set_unsubmit}
use distributed_queue_system.Server.{MainServer, num_queue_max, remove_section}
use distributed_queue_system.Server.Reply.{Result, done, fault, Env}

-- The first section: the job's queue, if the history holds it as waiting.
unfoldable pub waiting_queue : ℕ → MainServer → Option ℕ
waiting_queue jobid s = elim (unchecked_job jobid s.history) [
  | none ↦ none
  | some job ↦ if job.state == state_code wait then some job.queue_idx else none
]

abbrev pub mark : JobHistory → JobHistory
mark job = record job { state = state_code unsubmited }

-- The last section; `none` where findJob now gives -1 and the code writes before the array.
unfoldable pub mark_section : ℕ → MainServer → Option MainServer
mark_section jobid s = elim (find_job jobid s.history) [
  | none ↦ none
  | some idx ↦ some (record s { history = write_entry (some idx) mark s.history })
]

unfoldable pub unsubmit : Env → ℕ → MainServer → Result
unfolding remove_section
unsubmit e jobid s = elim (waiting_queue jobid s) [
  | none ↦ done (set_bad_params e.pkg ∷ []) true s
  | some q_idx ↦
      if ltb q_idx num_queue_max
      then elim (remove_section jobid q_idx s) [
        | none ↦ fault
        | some s₁ ↦ elim (mark_section jobid s₁) [
          | none ↦ fault
          | some s₂ ↦ done (set_unsubmit e.pkg jobid ∷ []) true s₂
        ]
      ]
      else fault
]
