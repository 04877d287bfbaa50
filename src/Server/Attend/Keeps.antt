-- ===== src/Server/Attend/Keeps.antt =====
-- Each handler of main_server.c, when it ends or waits, leaves a sound server.
use distributed_queue_system.Base.{
  ℕ, ◌+◌, ◌%◌, ◌^◌, ◌<◌, ◌≡◌, ◌≢◌, refl, List, [], ◌∷◌, Bool, true, none, some, arith, ap, sym, ◌∙◌,
  subst, All, All-mono, Option-cases, inl, inr, ◌⊎◌, eq-or-ne, Bool-cases,
}
use distributed_queue_system.Job.{Job, Heap}
use distributed_queue_system.Queue.{max_jobs_queue, unsigned_mod, count}
use distributed_queue_system.History.{lookup_job}
use distributed_queue_system.History.Find.{add_job_history-IsValid}
use distributed_queue_system.Proto.Memory.{Msg}
use distributed_queue_system.Proto.Setters.{set_bad_params, set_unsubmit}
use distributed_queue_system.Transport.{Ret, ok, closed, failed}
use distributed_queue_system.Server.{MainServer, remove_section}
use distributed_queue_system.Server.Reply.{Result, done, waits, fault, Env, Peer}
use distributed_queue_system.Server.Owned.{Owned, Owned-free, Owned-init}
use distributed_queue_system.Server.Invariant.{IsSound, HasRoom, queued, write_entry-IsSound}
use distributed_queue_system.Server.Submit.{new_job}
use distributed_queue_system.Server.Submit.Laws.{
  new_entry, registered, registered-queue_idx, new_job_stores, new_job_waits,
}
use distributed_queue_system.Server.Unsubmit.{waiting_queue, mark, mark_section, unsubmit}
use distributed_queue_system.Server.Threads.Moves.{
  Removed, nothing, freed, dropped, remove_section-Unqueued,
}
use distributed_queue_system.Server.Threads.Runs.{waiting_queue-Routed, mark_section-written}
use distributed_queue_system.Server.Attend.{change_state, report_state}
use distributed_queue_system.Server.Dispatch.{check_server_status, send_job}
use distributed_queue_system.Server.Dispatch.Laws.{
  Fails, unchecked, unsent, first, send_job_waits, send_job_sends, send_job_requeues,
}
use distributed_queue_system.Server.Owned.{Live}
use distributed_queue_system.Queue.Steps.{take_job-Taken}
use distributed_queue_system.Proto.Getters.{
  get_job_state_id, get_job_state_state, get_job_state_exit_value,
}
use distributed_queue_system.History.{change_state_job, set_state}
use distributed_queue_system.History.Change.{set_state-id, set_state-queue_idx}
use distributed_queue_system.Server.Threads.Runs.{change_state_job-written}

-- What a handler's end leaves is sound, if it leaves anything.
pub data Keeps : Result → Type 0 where
  at_end : {out : List Msg} {flag : Bool} {s : MainServer} → IsSound s → Keeps (done out flag s)
  at_wait : {out : List Msg} {s : MainServer} → IsSound s → Keeps (waits out s)
  at_fault : Keeps fault

pub ends : {r : Result} (r' : Result) → r ≡ r' → Keeps r' → Keeps r
ends r' e k = subst Keeps (sym e) k

registered-IsSound :
    (e : Env) (job : Job) (s : MainServer)
    → IsSound s
    → HasRoom s
    → s.heap e.addr ≡ none
    → IsSound (registered e job s)
registered-IsSound e job s v room fresh = record {
  queue_valid = v.queue_valid;
  history_valid =
      add_job_history-IsValid (new_entry e job s) s.history v.history_valid room.history_room;
  owned = record {
    live = All-mono (queued s) (λ x l. ground arith) v.owned.live;
    distinct = v.owned.distinct;
  };
  queue_idx = registered-queue_idx e job s v;
}

pub new_job-Keeps :
    (e : Env) (job : Job) (s : MainServer)
    → IsSound s
    → HasRoom s
    → s.heap e.addr ≡ none
    → Keeps (new_job e job s)
new_job-Keeps e job s v room fresh = elim (eq-or-ne (count (s.queue 0)) max_jobs_queue) [
  | inl f ↦ ends _ (new_job_waits e job s f) (at_wait (registered-IsSound e job s v room fresh))
  | inr n ↦ let (s', r, t) = new_job_stores e job s v room fresh n in ends _ r (at_end t.sound)
]

Owned-Removed :
    {heap heap' : Heap} {xs ys : List ℕ} → Removed heap xs heap' ys → Owned heap xs → Owned heap' ys
Owned-Removed {heap = heap} (nothing h e) o = rw h (subst (Owned heap) e o)
Owned-Removed {heap = heap} (freed pre post p h e e') o =
    rw (h, e') (Owned-free heap pre post p (subst (Owned heap) e o))
Owned-Removed {heap = heap} {ys = ys} (dropped p h e) o =
    rw h (Owned-init heap ys p (subst (Owned heap) e o))

remove_section-IsSound :
    (jobid q : ℕ) (s s' : MainServer)
    → IsSound s
    → waiting_queue jobid s ≡ some q
    → remove_section jobid q s ≡ some s'
    → IsSound s'
remove_section-IsSound jobid q s s' v w e =
    let lt = waiting_queue-Routed jobid q s v.queue_idx w in
    let d =
      remove_section-Unqueued jobid s s' v.queue_valid v.owned.live
        (ap (λ j. remove_section jobid j s) {y = q} (omega arith) ∙ e) in
    record {
      queue_valid = d.valid;
      history_valid = rw d.history_same v.history_valid;
      owned = Owned-Removed d.moved v.owned;
      queue_idx = rw d.history_same v.queue_idx;
    }

mark_section-IsSound :
    (jobid : ℕ) (s s' : MainServer) → IsSound s → mark_section jobid s ≡ some s' → IsSound s'
mark_section-IsSound jobid s s' v e =
    subst IsSound (mark_section-written jobid s s' e)
      (write_entry-IsSound jobid mark s (λ _. refl) (λ _ h. h) v)

pub unsubmit-Keeps : (e : Env) (jobid : ℕ) (s : MainServer) → IsSound s → Keeps (unsubmit e jobid s)
unfolding unsubmit
unsubmit-Keeps e jobid s v = elim (Option-cases (waiting_queue jobid s)) [
  | inl n ↦ ends (done (set_bad_params e.pkg ∷ []) true s) (ground (arith, n)) (at_end v)
  | inr (q, w) ↦
      let lt = waiting_queue-Routed jobid q s v.queue_idx w in
      elim (Option-cases (remove_section jobid q s)) [
        | inl n ↦ ends fault (ground (arith, w, n, lt)) at_fault
        | inr (s₁, r) ↦ elim (Option-cases (mark_section jobid s₁)) [
          | inl n ↦ ends fault (ground (arith, w, r, n, lt)) at_fault
          | inr (s₂, m) ↦
              ends (done (set_unsubmit e.pkg jobid ∷ []) true s₂) (ground (arith, w, r, m, lt)) (
                at_end
                  (mark_section-IsSound jobid s₁ s₂ (remove_section-IsSound jobid q s s₁ v w r) m))
        ]
      ]
]

-- sendJob succeeds with a peer, or fails.
succeeds : (peer : Peer) → ((check_server_status peer ≡ true) × (peer.job_sent ≡ ok)) ⊎ Fails peer
succeeds peer = elim (Bool-cases (check_server_status peer)) [
  | inr f ↦ inr (unchecked f)
  | inl c ↦ elim (Ret-cases peer.job_sent) [ inl k ↦ inl (c, k) | inr n ↦ inr (unsent c n) ]
]
  where
    Ret-cases : (ret : Ret) → (ret ≡ ok) ⊎ (ret ≢ ok)
    Ret-cases ok = inl refl
    Ret-cases closed = inr (λ e. cc)
    Ret-cases failed = inr (λ e. cc)

pub send_job-Keeps :
    (e : Env) (peer : Peer) (s : MainServer)
    → IsSound s
    → (s.queue 0).put_idx + 1 < unsigned_mod
    → (count (s.queue 0) ≢ 0
        → (job : Job) → s.heap (first s) ≡ some job
        → lookup_job job.id s.history ≢ none)
    → Keeps (send_job e peer s)
send_job-Keeps e peer s v room held = elim (eq-or-ne (count (s.queue 0)) 0) [
  | inl z ↦
      ends (waits [] (record s { queue2get = (s.queue2get + 1) % 2 ^ 32 }))
        (send_job_waits e peer s z)
        (at_wait (record {
          queue_valid = v.queue_valid;
          history_valid = v.history_valid;
          owned = v.owned;
          queue_idx = v.queue_idx;
        }))
  | inr n ↦ elim (Option-cases (s.heap (first s))) [
    | inl h ↦ absurd (first-live n h)
    | inr (job, h) ↦ elim (Option-cases (lookup_job job.id s.history)) [
      | inl l ↦ absurd (held n job h l)
      | inr (entry, l) ↦ elim (succeeds peer) [
        | inl (c, k) ↦
            let (s', r, w, _, _, _) = send_job_sends e peer s job v n h c k in ends _ r (at_end w)
        | inr f ↦
            let (out, s', rest, r, w, _, _, _) =
              send_job_requeues e peer s job v n h entry f room l in
            ends _ r (at_end w)
      ]
    ]
  ]
]
  where
    first-live : count (s.queue 0) ≢ 0 → s.heap (first s) ≢ none
    first-live n =
        (subst (All (Live s.heap)) (take_job-Taken (s.queue 0) v.queue_valid n).front
          v.owned.live).0

pub report_state-Keeps :
    (e : Env) (pkg : Msg) (s : MainServer) → IsSound s → Keeps (report_state e pkg s)
unfolding report_state change_state
report_state-Keeps e pkg s v = elim (Option-cases (change_state_job j a x e.now s.history)) [
  | inl n ↦ ends fault (ground (arith, n)) at_fault
  | inr (h, c) ↦ ends (done [] true (record s { history = h })) (ground (arith, c)) (
      at_end (elim (change_state_job-written j a x e.now s.history h c) [
        | inl same ↦ subst (λ g. IsSound (record s { history = g })) same v
        | inr w ↦
            subst (λ g. IsSound (record s { history = g })) w
              (write_entry-IsSound j (set_state a x e.now) s (set_state-id a x e.now)
                (λ entry i. rw (set_state-queue_idx a x e.now entry) i) v)
      ]))
]
  where
    j : ℕ
    j = get_job_state_id pkg

    a : ℕ
    a = get_job_state_state pkg

    x : ℕ
    x = get_job_state_exit_value pkg
