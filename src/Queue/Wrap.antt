-- ===== src/Queue/Wrap.antt =====
-- putJob where `put_idx` goes round 2 ^ 32, which is no multiple of the 15 slots.
use distributed_queue_system.Base.{ℕ, ◌-◌, ◌≡◌, ◌≢◌, some, arith}
use distributed_queue_system.Queue.{Queue, unsigned_mod, put_job}

-- When `put_idx` is 2 ^ 32 - 1, the next two jobs, if there is room for them, both go to slot
-- 0, so that the first of them is stored nowhere: every other slot is as before.
pub put_job_wrap :
    (q : Queue) {q₁ q₂ : Queue} (p₁ p₂ : ℕ)
    → q.put_idx ≡ unsigned_mod - 1
    → put_job q p₁ ≡ some q₁
    → put_job q₁ p₂ ≡ some q₂
    → (q₁.jobs 0 ≡ p₁)
      × (q₂.jobs 0 ≡ p₂)
      × ((j : ℕ) → j ≢ 0 → q₂.jobs j ≡ q.jobs j)
      × (q₂.put_idx ≡ 1)
unfolding put_job
put_job_wrap q p₁ p₂ h e₁ e₂ = (ground arith, ground arith, λ j n. ground arith, ground arith)
