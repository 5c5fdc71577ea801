-- ===== src/Service/Bulk/Bounds.antt =====
-- The size of the registry of src/prooflens/service/bulk.py under the guard of
-- src/prooflens/api/bulk.py.
use prooflens.Base.{
  ℕ, ◌+◌, ap, ◌≤◌, ◌<◌, suc, String, ◌≡◌, ◌∙◌, subst, inl, inr, true, [], Option, none, some,
  length, leb, lookup, insert, nat_eq, lookup-insert_ne, arith, Bool-cases,
}
use prooflens.Service.Bulk.{
  BulkJob, Jobs, is_done, new_bulk_job, ids_of, create, active_count, start_bulk_score, arrived,
  admitted, started, max_retained_jobs, max_inflight_jobs,
}
use prooflens.Service.Bulk.Registry.{ne_new, evict-shrinks, length-insert}
use prooflens.Service.Bulk.Counts.{
  HasKeys, insert-HasKeys, active-insert, active-advance, evict-HasKeys, active-evict, some_done,
  lookup-In, In-ids, is_evictable-done, length-insert_known,
}

module _ (new_id total : ℕ) (label : Option String) (jobs : Jobs) where
  abbrev grown_of : Jobs
  grown_of = insert new_id (new_bulk_job new_id total label) jobs

  create-HasKeys : HasKeys jobs → HasKeys (create new_id total label jobs)
  unfolding create
  create-HasKeys h =
      let g = grown_of in
      elim (Bool-cases (leb (length g) max_retained_jobs)) [
        | inl small ↦ rw small (insert-HasKeys new_id _ jobs h)
        | inr large ↦ rw large (evict-HasKeys new_id (ids_of g) g (insert-HasKeys new_id _ jobs h))
      ]

  active-create : active_count (create new_id total label jobs) ≤ suc (active_count jobs)
  unfolding create
  active-create = elim (Bool-cases (leb (length grown_of) max_retained_jobs)) [
    | inl small ↦ rw small (active-insert new_id _ jobs)
    | inr large ↦ rw large (
        omega (
          arith,
          active-evict new_id (ids_of grown_of) grown_of,
          active-insert new_id (new_bulk_job new_id total label) jobs,
        ))
  ]

  create-bounded :
      lookup new_id jobs ≡ none
      → HasKeys jobs
      → length jobs ≤ max_retained_jobs
      → active_count jobs < max_retained_jobs
      → length (create new_id total label jobs) ≤ max_retained_jobs
  unfolding create
  create-bounded fresh h l a = elim (Bool-cases (leb (length grown_of) max_retained_jobs)) [
    | inl small ↦ rw small (ground arith)
    | inr large ↦
        let size = length-insert new_id (new_bulk_job new_id total label) jobs fresh in
        let ((k, j), i, t) = some_done jobs (ground arith) in
        let here = lookup-In k j jobs h i in
        let there : lookup k grown_of ≡ some j =
          lookup-insert_ne new_id k _ jobs (ne_new new_id total label jobs fresh k j here) ∙ here in
        rw large (
          evict-shrinks new_id k (ids_of grown_of) grown_of (In-ids k grown_of j there)
            (is_evictable-done new_id k grown_of j there t
              (ne_new new_id total label jobs fresh k j here))
            (ground arith))
  ]

-- What happens to the registry and to the number of requests that were admitted and have not
-- created their job, of which at most `threads` run at once: a request is admitted, an admitted one
-- creates its job under a number that no job has, or a job moves on, and stays done once it is.
pub data RegistryStep (threads : ℕ) : Jobs × ℕ → Jobs × ℕ → Type 0 where
  admits :
      {jobs after : Jobs} {pending : ℕ} (new_id total : ℕ) (label : Option String)
      → pending < threads
      → start_bulk_score new_id total label arrived jobs ≡ (admitted, after)
      → RegistryStep threads (jobs, pending) (after, suc pending)
  creates :
      {jobs after : Jobs} {pending : ℕ} (new_id total : ℕ) (label : Option String)
      → lookup new_id jobs ≡ none
      → start_bulk_score new_id total label admitted jobs ≡ (started, after)
      → RegistryStep threads (jobs, suc pending) (after, pending)
  advances :
      {jobs : Jobs} {pending : ℕ} (k : ℕ) (v w : BulkJob)
      → lookup k jobs ≡ some w
      → (is_done w ≡ true → is_done v ≡ true)
      → RegistryStep threads (jobs, pending) (insert k v jobs, pending)

pub data RegistryReach (threads : ℕ) : Jobs × ℕ → Type 0 where
  empty : RegistryReach threads ([], 0)
  next :
      {before after : Jobs × ℕ}
      → RegistryReach threads before
      → RegistryStep threads before after
      → RegistryReach threads after

abbrev pub IsHealthy : ℕ → Jobs × ℕ → Type 0
IsHealthy threads (jobs, pending) =
    HasKeys jobs × (length jobs ≤ max_retained_jobs) × (active_count jobs + pending ≤ 2 + threads)

when_admitted :
    (new_id total : ℕ) (label : Option String) (jobs after : Jobs)
    → start_bulk_score new_id total label arrived jobs ≡ (admitted, after)
    → (active_count jobs < max_inflight_jobs) × (jobs ≡ after)
unfolding start_bulk_score
when_admitted new_id total label jobs after e = ground arith

when_started :
    (new_id total : ℕ) (label : Option String) (jobs after : Jobs)
    → start_bulk_score new_id total label admitted jobs ≡ (started, after)
    → create new_id total label jobs ≡ after
unfolding start_bulk_score
when_started new_id total label jobs after e = ap (λ r. r.1) e

RegistryStep-IsHealthy :
    (threads : ℕ) (before after : Jobs × ℕ)
    → threads ≤ 198
    → RegistryStep threads before after
    → IsHealthy threads before
    → IsHealthy threads after
RegistryStep-IsHealthy threads (jobs, pending) (after, _) bound (admits new_id total label free e)
      h =
    let (few, same) = when_admitted new_id total label jobs after e in
    subst (λ d. IsHealthy threads (d, suc pending)) same (h.0, h.1, omega (arith, few, free))
RegistryStep-IsHealthy threads (jobs, _) (after, pending) bound (creates new_id total label fresh e)
      h =
    subst (λ d. IsHealthy threads (d, pending)) (when_started new_id total label jobs after e)
      (
        create-HasKeys new_id total label jobs h.0,
        create-bounded new_id total label jobs fresh h.0 h.1 (omega (arith, h.2, bound)),
        omega (arith, h.2, active-create new_id total label jobs),
      )
RegistryStep-IsHealthy threads (jobs, pending) (_, _) bound (advances k v w known s) h = (
  insert-HasKeys k v jobs h.0,
  omega (arith, length-insert_known k v w jobs known, h.1),
  omega (arith, active-advance k v w jobs known s, h.2),
)

-- However the checks and the creations of requests, each taken as one step, and the running jobs
-- interleave, with at most 198 requests between the two steps at once: the registry never holds
-- more than 200 jobs, no number stands for two jobs, and the jobs that are not done and the
-- admitted requests together are never more than two more than the requests that may be there at
-- once, so three where only one is.
pub RegistryReach-IsHealthy :
    (threads : ℕ) (reached : Jobs × ℕ)
    → threads ≤ 198
    → RegistryReach threads reached
    → IsHealthy threads reached
unfolding active_count
RegistryReach-IsHealthy threads (_, _) bound empty = (tt, omega arith, omega arith)
RegistryReach-IsHealthy threads reached bound (next {before = before} r s) =
    RegistryStep-IsHealthy threads before reached bound s
      (RegistryReach-IsHealthy threads before bound r)
