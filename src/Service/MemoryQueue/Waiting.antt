-- ===== src/Service/MemoryQueue/Waiting.antt =====
-- The jobs that wait in the queue of src/prooflens/service/repo.py.
use prooflens.Base.{
  ℕ, ◌+◌, ◌-◌, ◌<◌, ◌≡◌, refl, sym, ap, ◌∙◌, ◌≢◌, ◌⊎◌, inl, inr, String, List, [], ◌∷◌, ◌++◌,
  Option, none, some, Dict, lookup, insert, nat_eq, pair_eq, ◌==◌, ==_iff, lookup-insert,
  lookup-insert_self, lookup-insert_ne, In, All, All-In, IsDistinctOn, IsDistinctOn-append,
  Bool-cases, arith,
}
use prooflens.Service.Processor.{JobPayload, JobView}
use prooflens.Service.MemoryQueue.{MemoryQueue, known_or_new, enqueue_in_memory}

-- The attempts that a job has left
abbrev pub left : Option JobView → ℕ
left none = 0
left (some job) = job.max_attempts - job.attempts

abbrev pub budget_of : Dict ℕ JobView → List ℕ → ℕ
budget_of jobs [] = 0
budget_of jobs (id ∷ ids) = left (lookup id jobs) + budget_of jobs ids

abbrev pub budget : MemoryQueue → ℕ
budget q = budget_of q.jobs q.queued

-- A job that is queued is stored under its id, with attempts left.
abbrev pub IsWaiting : Dict ℕ JobView → ℕ → Type 0
IsWaiting jobs id =
    (job : JobView) × (lookup id jobs ≡ some job)
    × (job.id ≡ id)
    × (job.attempts < job.max_attempts)

abbrev pub IsSane : MemoryQueue → Type 0
IsSane q = All (IsWaiting q.jobs) q.queued × IsDistinctOn (λ (id : ℕ). id) q.queued

abbrev pub IsSettled : Dict ℕ String → ℕ → Type 0
IsSettled status id = (lookup id status ≡ some "done") ⊎ (lookup id status ≡ some "dead_letter")

abbrev pub IsTracked : MemoryQueue → ℕ → Type 0
IsTracked q id = In id q.queued ⊎ IsSettled q.status id

module _ (k : ℕ) (job : JobView) (jobs : Dict ℕ JobView) where
  pub IsWaiting-insert :
      (ids : List ℕ)
      → All (λ id. k ≢ id) ids
      → All (IsWaiting jobs) ids
      → All (IsWaiting (insert k job jobs)) ids
  IsWaiting-insert [] ne h = tt
  IsWaiting-insert (id ∷ ids) ne h = (
    (h.0.0, lookup-insert_ne k id job jobs ne.0 ∙ h.0.1, h.0.2, h.0.3),
    IsWaiting-insert ids ne.1 h.1,
  )

  pub budget_of-insert :
      (ids : List ℕ)
      → All (λ id. k ≢ id) ids
      → budget_of (insert k job jobs) ids ≡ budget_of jobs ids
  budget_of-insert [] ne = refl
  budget_of-insert (id ∷ ids) ne =
      omega (arith, ap left (lookup-insert_ne k id job jobs ne.0), budget_of-insert ids ne.1)

pub budget_of-append :
    (jobs : Dict ℕ JobView) (ids : List ℕ) (id : ℕ)
    → budget_of jobs (ids ++ id ∷ []) ≡ budget_of jobs ids + left (lookup id jobs)
budget_of-append jobs [] id = omega arith
budget_of-append jobs (i ∷ ids) id = omega (arith, budget_of-append jobs ids id)

pub All-append :
    (P : ℕ → Type 0) (ids : List ℕ) (id : ℕ) → All P ids → P id → All P (ids ++ id ∷ [])
All-append P [] id h p = (p, tt)
All-append P (i ∷ ids) id h p = (h.0, All-append P ids id h.1 p)

-- A new status leaves every other job's as it was.
pub IsSettled-insert :
    (k id : ℕ) (v : String) (status : Dict ℕ String)
    → IsSettled status k
    → (k ≡ id) ⊎ IsSettled (insert id v status) k
IsSettled-insert k id v status h = elim (Bool-cases (id == k)) [
  | inl same ↦ inl (sym ((==_iff id k).0 same))
  | inr differ ↦ inr (rw (lookup-insert id k v status, differ) h)
]

-- A job that is new to the queue is queued with all its attempts.
pub enqueue_in_memory-IsSane :
    (new_id : ℕ) (tenant_id event_id : String) (payload : JobPayload) (q : MemoryQueue)
    → All (λ id. new_id ≢ id) q.queued
    → IsSane q
    → IsSane (enqueue_in_memory new_id tenant_id event_id payload q).1
unfolding enqueue_in_memory
enqueue_in_memory-IsSane new_id tenant_id event_id payload q fresh sane =
    by_event (lookup (tenant_id, event_id) q.by_event)
  where
    by_event :
        (known : Option ℕ) → IsSane (known_or_new new_id tenant_id event_id payload q known).1
    by_event (some job_id) = sane
    by_event none = (
      All-append _ q.queued new_id (IsWaiting-insert new_id _ q.jobs q.queued fresh sane.0)
          (_, lookup-insert_self new_id _ q.jobs, refl, omega arith),
      IsDistinctOn-append (λ (i : ℕ). i) new_id q.queued sane.1
          (λ a i e. All-In (λ j. new_id ≢ j) a q.queued fresh i (sym e)),
    )
