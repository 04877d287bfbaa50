-- ===== src/Server/Console/Tests.antt =====
-- The console and the shutdown of a server with two waiting jobs.
use distributed_queue_system.Base.{
  ℕ, ◌≡◌, ◌≢◌, sym, ap, ◌∙◌, subst, eq-or-ne, inl, inr, Option, [], ◌∷◌, none, some, arith, All,
  ◌==◌, if◌then◌else◌, ◌<◌,
}
use distributed_queue_system.Text.{codes, terminated}
use distributed_queue_system.Job.{Job, Heap}
use distributed_queue_system.History.{job_history_max}
use distributed_queue_system.Server.{MainServer}
use distributed_queue_system.Server.Sample.{
  job_with, two_jobs, two_queue-IsValid, two_history-IsValid, two_jobs-IsSound,
}
use distributed_queue_system.Server.Shutdown.{main_server_destroy}
use distributed_queue_system.Server.Shutdown.Laws.{main_server_destroy_lem}
use distributed_queue_system.Server.Console.{fault, console}
use distributed_queue_system.Server.Console.Printed.{IsText, HoldsText}
use distributed_queue_system.Server.Console.Rounds.{IsPrintable, console-IsPrintable}

main_server_destroy_lem_example :
    (s' : MainServer) × (main_server_destroy two_jobs ≡ some s')
    × All (λ p. s'.heap p ≡ none) (100 ∷ 101 ∷ [])
    × ((p : ℕ) → All (λ x. x ≢ p) (100 ∷ 101 ∷ []) → s'.heap p ≡ two_jobs.heap p)
    × ((i : ℕ) → i < job_history_max → s'.history.job_array i ≡ none)
main_server_destroy_lem_example = main_server_destroy_lem two_jobs two_jobs-IsSound

-- The same server, with texts that end.
abbrev text_job : ℕ → Job
text_job id = record (job_with id) { exec_file = 108 ∷ 115 ∷ 0 ∷ []; working_dir = 47 ∷ 0 ∷ [] }

abbrev text_heap : Heap
text_heap p = if p == 100 then some (text_job 0) else if p == 101 then some (text_job 1) else none

abbrev text_jobs : MainServer
text_jobs = record two_jobs { heap = text_heap }

text_job-IsText : (id : ℕ) → IsText (text_job id)
unfolding terminated
text_job-IsText id = record { file_ends = λ e. cc; dir_ends = λ e. cc }

text_heap-HoldsText : HoldsText text_heap
text_heap-HoldsText p job e = elim (eq-or-ne p 100) [
  | inl a ↦ same (text_job-IsText 0) (sym (ap text_heap a) ∙ e)
  | inr n ↦ elim (eq-or-ne p 101) [
    | inl b ↦ same (text_job-IsText 1) (sym (ap text_heap b) ∙ e)
    | inr k ↦ absurd (ground (arith, e, n, k))
  ]
]
  where
    same : {a b : Job} → IsText a → some a ≡ some b → IsText b
    same {a = a} t e = subst IsText (ap (λ (o : Option Job). elim o [ none ↦ a | some x ↦ x ]) e) t

text_jobs-IsPrintable : IsPrintable text_jobs
text_jobs-IsPrintable = record {
  sound = record {
    queue_valid = two_queue-IsValid;
    history_valid = two_history-IsValid;
    owned = record { live = ground arith; distinct = ground arith };
    queue_idx = λ i entry e. ground arith;
  };
  texts = text_heap-HoldsText;
}

console-IsPrintable_example :
    All (λ line. line ≢ fault) (console (text_jobs ∷ text_jobs ∷ []) (codes "jobs q 0 ")).0
console-IsPrintable_example =
    console-IsPrintable (text_jobs ∷ text_jobs ∷ []) (codes "jobs q 0 ")
      (text_jobs-IsPrintable, (text_jobs-IsPrintable, tt))
