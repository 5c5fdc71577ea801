-- ===== src/Service/MemoryQueue/Tests.antt =====
-- Runs of the queue of src/prooflens/service/repo.py, and a theorem at inputs that meet its
-- conditions.
use prooflens.Base.{ℕ, ◌==◌, ◌≡◌, refl, false, List, [], ◌∷◌, Option, none, some, arith, nat_eq}
use prooflens.Service.Processor.{JobPayload}
use prooflens.Service.MemoryQueue.{MemoryQueue, enqueue_in_memory, claim_in_memory, fail_in_memory}
use prooflens.Service.MemoryQueue.Waiting.{
  budget, IsSane, IsTracked, IsSettled, enqueue_in_memory-IsSane,
}
use prooflens.Service.MemoryQueue.Drained.{work_off, work_off-empties}

abbrev payload : JobPayload
payload = record {
  image_base64 = none;
  image_url = none;
  rep_id = none;
  opportunity_id = none;
  captured_at = none;
}

abbrev no_jobs : MemoryQueue
no_jobs = record { jobs = []; by_event = []; queued = []; status = [] }

abbrev two_jobs : MemoryQueue
two_jobs =
    (enqueue_in_memory 2 "t1" "e2" payload (enqueue_in_memory 1 "t1" "e1" payload no_jobs).1).1

same_event_again : (enqueue_in_memory 3 "t1" "e1" payload two_jobs).0 ≡ (1, false)
unfolding enqueue_in_memory
same_event_again = refl

unknown_job : fail_in_memory 7 two_jobs ≡ none
unfolding enqueue_in_memory fail_in_memory
unknown_job = refl

-- A job that fails goes to the end of the queue.
abbrev queue_after : Option MemoryQueue → List ℕ
queue_after none = []
queue_after (some q) = q.queued

requeued : queue_after (work_off 1 (λ _ _. false) two_jobs) ≡ 2 ∷ 1 ∷ []
unfolding work_off enqueue_in_memory claim_in_memory fail_in_memory
requeued = refl

two_jobs-IsSane : IsSane two_jobs
unfolding enqueue_in_memory
two_jobs-IsSane =
    enqueue_in_memory-IsSane 2 "t1" "e2" payload (enqueue_in_memory 1 "t1" "e1" payload no_jobs).1
      (λ e. absurd (omega (arith, e)), tt)
      (enqueue_in_memory-IsSane 1 "t1" "e1" payload no_jobs tt (tt, tt))

ten_attempts : budget two_jobs ≡ 10
unfolding enqueue_in_memory
ten_attempts = refl

work_off-empties_example :
    (q' : MemoryQueue) × (work_off 10 (λ _ job. job.id == 2) two_jobs ≡ some q')
    × (q'.queued ≡ [])
    × ((k : ℕ) → IsTracked two_jobs k → IsSettled q'.status k)
work_off-empties_example =
    work_off-empties 10 (λ _ job. job.id == 2) two_jobs two_jobs-IsSane
      (omega (arith, ten_attempts))
