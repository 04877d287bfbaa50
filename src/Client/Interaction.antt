-- ===== src/Client/Interaction.antt =====
-- client_accept and interaction_1 of client.c, which copies the bytes of an interactive job to the
-- terminal, and those of the terminal to the job.
use distributed_queue_system.Base.{
  ℕ, Option, none, some, ◌≤◌, ◌≡◌, refl, ap, ◌∙◌, true, false, List, [], ◌∷◌, ◌++◌, arith, length,
  take, take-append, sym, ◌==◌, All,
}
use mathlib.Core.List.{append-nil}

-- One round: select fails or names a side, from which read takes bytes (none at its end or on an
-- error), and write to the other side takes the first `n` of them.
pub data Pass : Type 0 where
  select_failed : Pass
  from_job : (bytes : List ℕ) → (n : ℕ) → Pass
  from_terminal : (bytes : List ℕ) → (n : ℕ) → Pass
  neither : Pass

-- What has gone to each side, and how the loop stands: it returned, an assertion failed, or it
-- waits for another round.
pub data Standing : Type 0 where
  returned aborted waiting : Standing

pub record Copied : Type 0 where
  pub to_terminal : List ℕ
  pub to_job : List ℕ
  pub standing : Standing

abbrev pub none_copied : Standing → Copied
none_copied st = record { to_terminal = []; to_job = []; standing = st }

-- A read of nothing and a write of nothing end the loop; what a short write leaves is dropped.
unfoldable pub interaction : List Pass → Copied
interaction [] = none_copied waiting
interaction (select_failed ∷ passes) = none_copied returned
interaction (from_job bytes n ∷ passes) = elim (length bytes == 0) [
  | true ↦ none_copied returned
  | false ↦ elim (n == 0) [
    | true ↦ none_copied returned
    | false ↦
        let later = interaction passes in
        record later { to_terminal = take n bytes ++ later.to_terminal }
  ]
]
interaction (from_terminal bytes n ∷ passes) = elim (length bytes == 0) [
  | true ↦ none_copied returned
  | false ↦ elim (n == 0) [
    | true ↦ none_copied returned
    | false ↦
        let later = interaction passes in record later { to_job = take n bytes ++ later.to_job }
  ]
]
interaction (neither ∷ passes) = none_copied aborted

-- client_accept: `none` where accept fails; the rounds of the connection that it gives otherwise.
unfoldable pub client_accept : Option (List Pass) → Option Copied
unfolding interaction
client_accept none = none
client_accept (some passes) = some (interaction passes)

-- A round in which read gives some bytes and write takes them all.
abbrev pub IsWhole : Pass → Type 0
IsWhole select_failed = ⊥
IsWhole (from_job bytes n) = (1 ≤ length bytes) × (n ≡ length bytes)
IsWhole (from_terminal bytes n) = (1 ≤ length bytes) × (n ≡ length bytes)
IsWhole neither = ⊥

-- What was read from each side.
unfoldable pub job_bytes : List Pass → List ℕ
job_bytes [] = []
job_bytes (from_job bytes n ∷ passes) = bytes ++ job_bytes passes
job_bytes (from_terminal bytes n ∷ passes) = job_bytes passes
job_bytes (select_failed ∷ passes) = job_bytes passes
job_bytes (neither ∷ passes) = job_bytes passes

unfoldable pub terminal_bytes : List Pass → List ℕ
terminal_bytes [] = []
terminal_bytes (from_job bytes n ∷ passes) = terminal_bytes passes
terminal_bytes (from_terminal bytes n ∷ passes) = bytes ++ terminal_bytes passes
terminal_bytes (select_failed ∷ passes) = terminal_bytes passes
terminal_bytes (neither ∷ passes) = terminal_bytes passes

take-length : (xs : List ℕ) (n : ℕ) → n ≡ length xs → take n xs ≡ xs
take-length xs n e = ap (take n) (sym (append-nil xs)) ∙ take-append xs [] n e

-- The rounds before job_bytes ends: everything that either side wrote reaches the other, in order.
pub interaction_copies :
    (passes later : List Pass) (n : ℕ)
    → All IsWhole passes
    → interaction (passes ++ from_job [] n ∷ later) ≡ record {
      to_terminal = job_bytes passes;
      to_job = terminal_bytes passes;
      standing = returned;
    }
unfolding interaction job_bytes terminal_bytes
interaction_copies [] later n a = refl
interaction_copies (from_job bytes k ∷ passes) later n ((z, e), a) =
    ground (arith, take-length bytes k e, interaction_copies passes later n a)
interaction_copies (from_terminal bytes k ∷ passes) later n ((z, e), a) =
    ground (arith, take-length bytes k e, interaction_copies passes later n a)
interaction_copies (select_failed ∷ passes) later n (b, a) = absurd b
interaction_copies (neither ∷ passes) later n (b, a) = absurd b
