-- ===== src/Service/MemoryQueue/Rounds.antt =====
-- One job taken from the queue of src/prooflens/service/repo.py, and completed or failed.
use prooflens.Base.{
  ℕ, ◌+◌, ◌≤◌, ◌<◌, ◌≡◌, refl, sym, ap, ◌∙◌, subst, ◌≢◌, ◌⊎◌, inl, inr, String, Bool, true, false,
  List, [], ◌∷◌, ◌++◌, Option, none, some, leb, lookup, insert, nat_eq, pair_eq, lookup-insert_self,
  In, In-append_left, In-append_right, All, All-In, IsDistinctOn, IsDistinctOn-append, Bool-cases,
  arith,
}
use prooflens.Service.Processor.{JobView}
use prooflens.Service.MemoryQueue.{
  MemoryQueue, with_attempt, claim_in_memory, complete_in_memory, failed, fail_in_memory,
}
use prooflens.Service.MemoryQueue.Waiting.{
  left, budget_of, budget, IsWaiting, IsSane, IsSettled, IsTracked, IsWaiting-insert,
  budget_of-insert, budget_of-append, All-append, IsSettled-insert,
}

-- A job is completed or failed by its outcome.
abbrev pub settle_one : Bool → ℕ → MemoryQueue → Option MemoryQueue
settle_one true job_id q = some (complete_in_memory job_id q)
settle_one false job_id q = fail_in_memory job_id q

abbrev pub settle_claimed :
    (JobView → Bool) → Option (List JobView × MemoryQueue) → Option MemoryQueue
settle_claimed outcome none = none
settle_claimed outcome (some ([], q)) = some q
settle_claimed outcome (some (job ∷ jobs, q)) = settle_one (outcome job) job.id q

-- The job that was claimed is stored, its id is no more queued, and it is settled or queued again.
module _ (q : MemoryQueue) (id : ℕ) (job : JobView) (found : lookup id q.jobs ≡ some job)
    (named : job.id ≡ id) (apart : All (λ i. id ≢ i) q.queued) (sane : IsSane q) where
  abbrev IsRound : Option MemoryQueue → Type 0
  IsRound after =
      (q' : MemoryQueue) × (after ≡ some q')
      × IsSane q'
      × (budget q' ≤ budget q + left (some job))
      × ((k : ℕ) → (k ≡ id) ⊎ IsTracked q k → IsTracked q' k)

  abbrev with_status : String → MemoryQueue
  with_status v = record q { status = insert id v q.status }

  -- A final status settles the job.
  settled-IsRound :
      (v : String) → (v ≡ "done") ⊎ (v ≡ "dead_letter") → IsRound (some (with_status v))
  settled-IsRound v final = (with_status v, refl, sane, omega arith, tracked)
    where
      now : (v ≡ "done") ⊎ (v ≡ "dead_letter") → IsSettled (insert id v q.status) id
      now (inl e) = inl (lookup-insert_self id v q.status ∙ ap some e)
      now (inr e) = inr (lookup-insert_self id v q.status ∙ ap some e)

      own : (k : ℕ) → k ≡ id → IsTracked (with_status v) k
      own k e = inr (subst (IsSettled (insert id v q.status)) (sym e) (now final))

      other : (k : ℕ) → (k ≡ id) ⊎ IsSettled (insert id v q.status) k → IsTracked (with_status v) k
      other k (inl e) = own k e
      other k (inr h) = inr h

      tracked : (k : ℕ) → (k ≡ id) ⊎ IsTracked q k → IsTracked (with_status v) k
      tracked k (inl e) = own k e
      tracked k (inr (inl i)) = inl i
      tracked k (inr (inr h)) = other k (IsSettled-insert k id v q.status h)

  abbrev queued_again : MemoryQueue
  queued_again = record q { queued = q.queued ++ id ∷ []; status = insert id "queued" q.status }

  queued-IsRound : job.attempts < job.max_attempts → IsRound (some queued_again)
  queued-IsRound more = (
    queued_again,
    refl,
    (
      All-append (IsWaiting q.jobs) q.queued id sane.0 (job, found, named, more),
      IsDistinctOn-append (λ (i : ℕ). i) id q.queued sane.1
          (λ a i e. All-In (λ j. id ≢ j) a q.queued apart i (sym e)),
    ),
    omega (arith, budget_of-append q.jobs q.queued id, ap left found),
    tracked,
  )
    where
      last : (k : ℕ) → k ≡ id → IsTracked queued_again k
      last k e = inl (In-append_right k q.queued (id ∷ []) (inl e))

      other :
          (k : ℕ) → (k ≡ id) ⊎ IsSettled (insert id "queued" q.status) k → IsTracked queued_again k
      other k (inl e) = last k e
      other k (inr h) = inr h

      tracked : (k : ℕ) → (k ≡ id) ⊎ IsTracked q k → IsTracked queued_again k
      tracked k (inl e) = last k e
      tracked k (inr (inl i)) = inl (In-append_left k q.queued (id ∷ []) i)
      tracked k (inr (inr h)) = other k (IsSettled-insert k id "queued" q.status h)

  failed-IsRound : IsRound (fail_in_memory id q)
  unfolding fail_in_memory
  failed-IsRound =
      subst (λ o. IsRound (failed id q o)) (sym found)
        (by_budget (Bool-cases (leb job.max_attempts job.attempts)))
    where
      by_budget :
          (leb job.max_attempts job.attempts ≡ true) ⊎ (leb job.max_attempts job.attempts ≡ false)
          → IsRound (failed id q (some job))
      by_budget (inl spent) = rw spent (settled-IsRound "dead_letter" (inr refl))
      by_budget (inr more) = rw more (queued-IsRound (ground (arith, more)))

  one-IsRound : (success : Bool) → IsRound (settle_one success job.id q)
  unfolding complete_in_memory
  one-IsRound true =
      subst (λ i. IsRound (some (complete_in_memory i q))) (sym named)
        (settled-IsRound "done" (inl refl))
  one-IsRound false = subst (λ i. IsRound (fail_in_memory i q)) (sym named) failed-IsRound

-- A round on a queue that is not empty uses up one attempt.
pub round-IsSane :
    (outcome : JobView → Bool) (q : MemoryQueue) (id : ℕ) (ids : List ℕ)
    → q.queued ≡ id ∷ ids
    → IsSane q
    → (q' : MemoryQueue) × (settle_claimed outcome (claim_in_memory 1 q) ≡ some q')
      × IsSane q'
      × (budget q' < budget q)
      × ((k : ℕ) → IsTracked q k → IsTracked q' k)
unfolding claim_in_memory
round-IsSane outcome q id ids e sane =
    let ((job, found, named, more), waiting) = subst (All (IsWaiting q.jobs)) e sane.0 in
    let (apart, distinct) = subst (IsDistinctOn (λ (i : ℕ). i)) e sane.1 in
    let q1 : MemoryQueue = record q {
      jobs = insert id (with_attempt job) q.jobs;
      queued = ids;
      status = insert id "in_progress" q.status;
    } in
    let (q', settled, sane', spent, tracked) =
      one-IsRound q1 id (with_attempt job) (lookup-insert_self id (with_attempt job) q.jobs) named
        apart (IsWaiting-insert id (with_attempt job) q.jobs ids apart waiting, distinct)
        (outcome (with_attempt job)) in
    (
      q',
      rw (e, found) settled,
      sane',
      omega (
        arith,
        spent,
        more,
        budget_of-insert id (with_attempt job) q.jobs ids apart,
        ap (budget_of q.jobs) e,
        ap left found,
      ),
      λ k h. tracked k (sort_out k h),
    )
  where
    settled_or_not :
        (k : ℕ)
        → (k ≡ id) ⊎ IsSettled (insert id "in_progress" q.status) k
        → (k ≡ id) ⊎ (In k ids ⊎ IsSettled (insert id "in_progress" q.status) k)
    settled_or_not k (inl same) = inl same
    settled_or_not k (inr h) = inr (inr h)

    in_front :
        (k : ℕ)
        → In k (id ∷ ids)
        → (k ≡ id) ⊎ (In k ids ⊎ IsSettled (insert id "in_progress" q.status) k)
    in_front k (inl same) = inl same
    in_front k (inr i) = inr (inl i)

    sort_out :
        (k : ℕ)
        → IsTracked q k
        → (k ≡ id) ⊎ (In k ids ⊎ IsSettled (insert id "in_progress" q.status) k)
    sort_out k (inl i) = in_front k (subst (In k) e i)
    sort_out k (inr h) = settled_or_not k (IsSettled-insert k id "in_progress" q.status h)
