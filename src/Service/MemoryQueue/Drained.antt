-- ===== src/Service/MemoryQueue/Drained.antt =====
-- A worker that takes one job after another from the queue of src/prooflens/service/repo.py, as
-- `run_once` of src/prooflens/worker.py does with a batch of one.
use prooflens.Base.{
  ℕ, zero, suc, ◌≤◌, ◌≡◌, refl, ap, ◌∙◌, subst, inl, inr, Bool, [], Option, none, some, nat_eq,
  pair_eq, In, arith, List-cases,
}
use prooflens.Service.Processor.{JobView}
use prooflens.Service.MemoryQueue.{MemoryQueue, claim_front, claim_in_memory}
use prooflens.Service.MemoryQueue.Waiting.{budget, IsSane, IsSettled, IsTracked}
use prooflens.Service.MemoryQueue.Rounds.{settle_claimed, round-IsSane}

abbrev then_work : (MemoryQueue → Option MemoryQueue) → Option MemoryQueue → Option MemoryQueue
then_work rest none = none
then_work rest (some q) = rest q

-- So many rounds of a worker; an outcome is any function of the round and the job.
unfoldable pub work_off : ℕ → (ℕ → JobView → Bool) → MemoryQueue → Option MemoryQueue
work_off zero outcome q = some q
work_off (suc rounds) outcome q =
    then_work (λ q'. work_off rounds outcome q')
      (settle_claimed (outcome rounds) (claim_in_memory 1 q))

IsSettled-at_end :
    (q : MemoryQueue) → q.queued ≡ [] → (k : ℕ) → IsTracked q k → IsSettled q.status k
IsSettled-at_end q e k (inl i) = absurd (subst (In k) e i)
IsSettled-at_end q e k (inr h) = h

work_off-empty :
    (rounds : ℕ) (outcome : ℕ → JobView → Bool) (q : MemoryQueue)
    → q.queued ≡ []
    → work_off rounds outcome q ≡ some q
unfolding work_off claim_in_memory
work_off-empty zero outcome q e = refl
work_off-empty (suc rounds) outcome q e =
    ap
      (λ ids.
        then_work (λ p. work_off rounds outcome p)
          (settle_claimed (outcome rounds) (claim_front (λ p. some ([], p)) q ids)))
      e
    ∙ work_off-empty rounds outcome q e

-- As many rounds as the queued jobs have attempts left empty the queue, whatever their outcomes
-- are, and raise no KeyError: then each job that was queued is done or a dead letter.
pub work_off-empties :
    (rounds : ℕ) (outcome : ℕ → JobView → Bool) (q : MemoryQueue)
    → IsSane q
    → budget q ≤ rounds
    → (q' : MemoryQueue) × (work_off rounds outcome q ≡ some q')
      × (q'.queued ≡ [])
      × ((k : ℕ) → IsTracked q k → IsSettled q'.status k)
unfolding work_off
work_off-empties zero outcome q sane enough = elim (List-cases q.queued) [
  | inl e ↦ (q, refl, e, IsSettled-at_end q e)
  | inr (id, ids, e) ↦
      let (q1, _, _, spent, _) = round-IsSane (outcome 0) q id ids e sane in
      absurd (omega (arith, spent, enough))
]
work_off-empties (suc rounds) outcome q sane enough = elim (List-cases q.queued) [
  | inl e ↦ (q, work_off-empty (suc rounds) outcome q e, e, IsSettled-at_end q e)
  | inr (id, ids, e) ↦
      let (q1, settled, sane', spent, tracked) = round-IsSane (outcome rounds) q id ids e sane in
      let (q', drained, empty, at_end) =
        work_off-empties rounds outcome q1 sane' (omega (arith, spent, enough)) in
      (
        q',
        ap (then_work (λ p. work_off rounds outcome p)) settled ∙ drained,
        empty,
        λ k h. at_end k (tracked k h),
      )
]
