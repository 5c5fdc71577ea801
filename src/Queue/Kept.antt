-- ===== src/Queue/Kept.antt =====
-- What each operation of src/prooflens/queue/queue.py keeps of the jobs table.
use prooflens.Base.{
  ℕ, ◌≤◌, ◌<◌, ◌≡◌, refl, sym, ap, subst, ◌≢◌, inl, inr, Bool, true, false, not, List, [], ◌∷◌,
  ◌++◌, Option, none, String, arith, map, find, In, All, All-In, All-In_intro, ◌==◌, In-map,
  In-append_cases, IsDistinctOn, IsDistinctOn-map, IsDistinctOn-append, Bool-cases, Option-cases,
  leb, is_none, find-eq-none, eq_iff,
}
use prooflens.Queue.Backoff.{JobError, fatal, overloaded, retryable, unexpected}
use prooflens.Queue.Jobs.{
  JobStatus, in_progress, Job, Settings, is_waiting, same_event, new_job, enqueue, has_id, selected,
  claim, claim_if, claim_batch, complete, reschedule, fail, on_job,
}
use prooflens.Queue.Claim.{IsDistinct, selected-due, has_id-due}

abbrev pub is_running : JobStatus → Bool
is_running in_progress = true
is_running _ = false

module _ {P : Type 0} where
  -- A job that waits has an attempt left; one in progress has counted it; none has more attempts
  -- than its budget, and exactly those in progress are locked.
  abbrev pub IsSound : Job P → Type 0
  IsSound j =
      (is_waiting j.status ≡ true → j.attempts < j.max_attempts)
      × (is_running j.status ≡ true → 1 ≤ j.attempts)
      × (j.attempts ≤ j.max_attempts)
      × (is_none j.locked_at ≡ not (is_running j.status))

  abbrev pub event_of : Job P → String × String
  event_of j = (j.tenant_id, j.event_id)

  -- Every job is sound, and neither ids nor events of a tenant repeat.
  abbrev pub IsGood : List (Job P) → Type 0
  IsGood table = All IsSound table × IsDistinct table × IsDistinctOn event_of table

  claim-IsSound :
      (now : ℕ) (j : Job P) → IsSound j → is_waiting j.status ≡ true → IsSound (claim now j)
  unfolding claim
  claim-IsSound now j s w = ground arith

  pub claim-keeps :
      (now : ℕ) (j : Job P) → ((claim now j).id ≡ j.id) × (event_of (claim now j) ≡ event_of j)
  unfolding claim
  claim-keeps now j = (refl, refl)

  pub complete-IsSound : (j : Job P) → IsSound j → IsSound (complete j)
  unfolding complete
  complete-IsSound j s = ground arith

  pub complete-keeps : (j : Job P) → ((complete j).id ≡ j.id) × (event_of (complete j) ≡ event_of j)
  unfolding complete
  complete-keeps j = (refl, refl)

  new_job-IsSound :
      (cfg : Settings) (i now : ℕ) (t e : String) (p : P)
      → 1 ≤ cfg.queue_max_attempts
      → IsSound (new_job cfg i now t e p)
  new_job-IsSound cfg i now t e p h = ground arith

  module _ (cfg : Settings) (draw : ℕ → ℕ) where
    reschedule-IsSound :
        (now : ℕ) (after : Option ℕ) (j : Job P)
        → j.attempts ≤ j.max_attempts
        → IsSound (reschedule cfg draw now after j)
    unfolding reschedule
    reschedule-IsSound now after j h = ground arith

    pub fail-IsSound :
        (now : ℕ) (e : JobError) (j : Job P) → IsSound j → IsSound (fail cfg draw now e j)
    unfolding fail
    fail-IsSound now (fatal m) j s = ground arith
    fail-IsSound now (overloaded m after) j s = reschedule-IsSound now after _ (ground arith)
    fail-IsSound now (retryable m after) j s = reschedule-IsSound now after _ (ground arith)
    fail-IsSound now (unexpected m) j s = reschedule-IsSound now none _ (ground arith)

    reschedule-keeps :
        (now : ℕ) (after : Option ℕ) (j : Job P)
        → ((reschedule cfg draw now after j).id ≡ j.id)
          × (event_of (reschedule cfg draw now after j) ≡ event_of j)
    unfolding reschedule
    reschedule-keeps now after j = elim (Bool-cases (leb j.max_attempts j.attempts)) [
      | inl e ↦ rw e (refl, refl)
      | inr e ↦ rw e (refl, refl)
    ]

    pub fail-keeps :
        (now : ℕ) (e : JobError) (j : Job P)
        → ((fail cfg draw now e j).id ≡ j.id) × (event_of (fail cfg draw now e j) ≡ event_of j)
    unfolding fail
    fail-keeps now (fatal m) j = (refl, refl)
    fail-keeps now (overloaded m after) j = reschedule-keeps now after _
    fail-keeps now (retryable m after) j = reschedule-keeps now after _
    fail-keeps now (unexpected m) j = reschedule-keeps now none _

  -- A function that keeps every job sound, and its id and event, keeps the table good.
  map-IsGood :
      (f : Job P → Job P) (table : List (Job P))
      → ((j : Job P) → In j table → IsSound j → IsSound (f j))
      → ((j : Job P) → ((f j).id ≡ j.id) × (event_of (f j) ≡ event_of j))
      → IsGood table
      → IsGood (map f table)
  map-IsGood f table s k g = (
    All-In_intro IsSound (map f table) (λ j i.
        let (b, m, e) = In-map f j table i in
        subst IsSound (sym e) (s b m (All-In IsSound b table g.0 m))),
    IsDistinctOn-map (λ j. j.id) f table (λ j. (k j).0) g.1,
    IsDistinctOn-map event_of f table (λ j. (k j).1) g.2,
  )

  pub on_job-IsGood :
      (i : ℕ) (f : Job P → Job P) (table : List (Job P))
      → ((j : Job P) → IsSound j → IsSound (f j))
      → ((j : Job P) → ((f j).id ≡ j.id) × (event_of (f j) ≡ event_of j))
      → IsGood table
      → IsGood (on_job i f table)
  unfolding on_job
  on_job-IsGood i f table s k g =
      map-IsGood _ table
        (λ j m h. elim (Bool-cases (j.id == i)) [ inl e ↦ rw e (s j h) | inr e ↦ rw e h ])
        (λ j. elim (Bool-cases (j.id == i)) [ inl e ↦ rw e (k j) | inr e ↦ rw e (refl, refl) ]) g

  pub claim_batch-IsGood :
      (locked : ℕ → Bool) (now limit : ℕ) (table : List (Job P))
      → IsGood table
      → IsGood (claim_batch locked now limit table).1
  unfolding claim_batch claim_if
  claim_batch-IsGood locked now limit table g =
      let rows = selected locked now limit table in
      map-IsGood _ table
        (λ j m h. elim (Bool-cases (has_id j.id rows)) [
          | inl e ↦ rw e (
              claim-IsSound now j h (
                ground (
                  arith,
                  (selected-due locked now limit table g.1 j
                      (has_id-due locked now limit table g.1 j m e)).1,
                )))
          | inr e ↦ rw e h
        ])
        (λ j. elim (Bool-cases (has_id j.id rows)) [
          | inl e ↦ rw e (claim-keeps now j)
          | inr e ↦ rw e (refl, refl)
        ])
        g

  event_of-ne : (t e : String) (j : Job P) → same_event t e j ≡ false → event_of j ≢ (t, e)
  event_of-ne t e j h same =
      let a = (eq_iff j.tenant_id t).1 (ap (λ x. x.0) same) in
      let b = (eq_iff j.event_id e).1 (ap (λ x. x.1) same) in ground (arith, a, b)

  pub enqueue-IsGood :
      (cfg : Settings) (new_id now : ℕ) (t e : String) (p : P) (table : List (Job P))
      → 1 ≤ cfg.queue_max_attempts
      → All (λ j. j.id ≢ new_id) table
      → IsGood table
      → IsGood (enqueue cfg new_id now t e p table).1
  unfolding enqueue
  enqueue-IsGood cfg new_id now t e p table h fresh g =
      elim (Option-cases (find (same_event t e) table)) [
        | inr (old, f) ↦ rw (f, enqueue) g
        | inl f ↦
            rw (f, enqueue)
              (
                All-In_intro IsSound (table ++ fresh_job ∷ []) (λ j i.
                    elim (In-append_cases j table (fresh_job ∷ []) i) [
                      | inl k ↦ All-In IsSound j table g.0 k
                      | inr (inl same) ↦
                          subst IsSound (sym same) (new_job-IsSound cfg new_id now t e p h)
                      | inr (inr nothing) ↦ absurd nothing
                    ]),
                IsDistinctOn-append (λ j. j.id) fresh_job table g.1
                    (λ j i. All-In (λ j. j.id ≢ new_id) j table fresh i),
                IsDistinctOn-append event_of fresh_job table g.2
                    (λ j i. event_of-ne t e j (find-eq-none (same_event t e) table j f i)),
              )
      ]
    where
      fresh_job : Job P
      fresh_job = new_job cfg new_id now t e p
