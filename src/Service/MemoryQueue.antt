-- ===== src/Service/MemoryQueue.antt =====
-- The queue of InMemoryRepo in src/prooflens/service/repo.py. A job is one object: the views that
-- `claim_batch` gives carry the attempts of the stored job. A KeyError is none.
pub mod Waiting
pub mod Rounds
pub mod Drained
mod Tests
use prooflens.Base.{
  ℕ, zero, suc, ◌+◌, String, Bool, List, [], ◌∷◌, ◌++◌, Option, none, some, leb, Dict, lookup,
  insert, string_eq, nat_eq, pair_eq, if◌then◌else◌,
}
use prooflens.Service.Processor.{JobPayload, JobView}

pub record MemoryQueue : Type 0 where
  pub jobs : Dict ℕ JobView
  pub by_event : Dict (String × String) ℕ
  pub queued : List ℕ
  pub status : Dict ℕ String

-- JobView's default
abbrev pub default_max_attempts : ℕ
default_max_attempts = 5

abbrev pub known_or_new :
    ℕ → String → String → JobPayload → MemoryQueue → Option ℕ → (ℕ × Bool) × MemoryQueue
known_or_new new_id tenant_id event_id payload q (some job_id) = ((job_id, Bool.false), q)
known_or_new new_id tenant_id event_id payload q none = (
  (new_id, Bool.true),
  record {
    jobs =
        insert new_id
          (record {
            id = new_id;
            tenant_id = tenant_id;
            event_id = event_id;
            payload = payload;
            attempts = 0;
            max_attempts = default_max_attempts;
          })
          q.jobs;
    by_event = insert (tenant_id, event_id) new_id q.by_event;
    queued = q.queued ++ new_id ∷ [];
    status = insert new_id "queued" q.status;
  },
)

-- `enqueue`, where `new_id` is the next id
unfoldable pub enqueue_in_memory :
    ℕ → String → String → JobPayload → MemoryQueue → (ℕ × Bool) × MemoryQueue
enqueue_in_memory new_id tenant_id event_id payload q =
    known_or_new new_id tenant_id event_id payload q (lookup (tenant_id, event_id) q.by_event)

-- The loop body of `claim_batch` on the job in front
abbrev pub with_attempt : JobView → JobView
with_attempt job = record job { attempts = job.attempts + 1 }

abbrev pub taken : ℕ → List ℕ → MemoryQueue → Option JobView → Option (JobView × MemoryQueue)
taken job_id rest q none = none
taken job_id rest q (some job) = some (
  with_attempt job,
  record q {
    jobs = insert job_id (with_attempt job) q.jobs;
    queued = rest;
    status = insert job_id "in_progress" q.status;
  },
)

abbrev pub with_claimed :
    JobView → Option (List JobView × MemoryQueue) → Option (List JobView × MemoryQueue)
with_claimed job none = none
with_claimed job (some (jobs, q)) = some (job ∷ jobs, q)

abbrev pub and_rest :
    (MemoryQueue → Option (List JobView × MemoryQueue))
    → Option (JobView × MemoryQueue)
    → Option (List JobView × MemoryQueue)
and_rest rest none = none
and_rest rest (some (job, q)) = with_claimed job (rest q)

abbrev pub claim_front :
    (MemoryQueue → Option (List JobView × MemoryQueue))
    → MemoryQueue
    → List ℕ
    → Option (List JobView × MemoryQueue)
claim_front rest q [] = some ([], q)
claim_front rest q (job_id ∷ ids) = and_rest rest (taken job_id ids q (lookup job_id q.jobs))

-- `claim_batch`
unfoldable pub claim_in_memory : ℕ → MemoryQueue → Option (List JobView × MemoryQueue)
claim_in_memory zero q = some ([], q)
claim_in_memory (suc limit) q = claim_front (λ q'. claim_in_memory limit q') q q.queued

-- `complete`
unfoldable pub complete_in_memory : ℕ → MemoryQueue → MemoryQueue
complete_in_memory job_id q = record q { status = insert job_id "done" q.status }

abbrev pub failed : ℕ → MemoryQueue → Option JobView → Option MemoryQueue
failed job_id q none = none
failed job_id q (some job) = some (
    if leb job.max_attempts job.attempts
    then record q { status = insert job_id "dead_letter" q.status }
    else record q { queued = q.queued ++ job_id ∷ []; status = insert job_id "queued" q.status })

-- `fail`
unfoldable pub fail_in_memory : ℕ → MemoryQueue → Option MemoryQueue
fail_in_memory job_id q = failed job_id q (lookup job_id q.jobs)
