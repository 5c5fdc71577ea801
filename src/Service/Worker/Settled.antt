-- ===== src/Service/Worker/Settled.antt =====
-- What the loop of src/prooflens/worker.py leaves of the jobs that it claimed.
use prooflens.Base.{
  ℕ, Option, none, ◌+◌, ◌≡◌, refl, ◌∙◌, subst, ◌≢◌, ◌⊎◌, inl, inr, Bool, true, false, List, [], ◌∷◌,
  map, In, In-map, In-map_intro, All, ◌==◌, ==_iff, Bool-cases, if◌then◌else◌, arith,
}
use prooflens.Queue.Backoff.{JobError}
use prooflens.Queue.Jobs.{
  JobStatus, done, Job, Settings, complete, fail, reschedule, on_job, has_id,
}
use prooflens.Service.Processor.{JobPayload, JobView}
use prooflens.Service.Worker.{Progress, finish}

abbrev pub Row : Type 0
Row = Job JobPayload

abbrev pub number : Row → ℕ
number j = j.id

abbrev pub is_done : JobStatus → Bool
is_done done = true
is_done _ = false

-- The row is completed, or failed by some error.
abbrev pub IsSettled : Settings → (ℕ → ℕ) → Row → Row → Type 0
IsSettled cfg draw c r = (r ≡ complete c) ⊎ ((at : ℕ) × (e : JobError) × (r ≡ fail cfg draw at e c))

module _ (cfg : Settings) (draw : ℕ → ℕ) where
  -- An operation that keeps a job's number
  abbrev Keeps : (Row → Row) → Type 0
  Keeps f = (j : Row) → (f j).id ≡ j.id

  complete-Keeps : Keeps complete
  unfolding complete
  complete-Keeps j = refl

  reschedule-id :
      (now : ℕ) (after : Option ℕ) (j : Row) → (reschedule cfg draw now after j).id ≡ j.id
  unfolding reschedule
  reschedule-id now after j = ground arith

  fail-Keeps : (at : ℕ) (e : JobError) → Keeps (fail cfg draw at e)
  unfolding fail
  fail-Keeps at (JobError.fatal m) j = refl
  fail-Keeps at (JobError.overloaded m a) j = reschedule-id at a _
  fail-Keeps at (JobError.retryable m a) j = reschedule-id at a _
  fail-Keeps at (JobError.unexpected m) j = reschedule-id at none _

  reschedule-done :
      (now : ℕ) (after : Option ℕ) (j : Row)
      → is_done (reschedule cfg draw now after j).status ≡ false
  unfolding reschedule
  reschedule-done now after j = ground arith

  fail-done : (at : ℕ) (e : JobError) (j : Row) → is_done (fail cfg draw at e j).status ≡ false
  unfolding fail
  fail-done at (JobError.fatal m) j = refl
  fail-done at (JobError.overloaded m a) j = reschedule-done at a _
  fail-done at (JobError.retryable m a) j = reschedule-done at a _
  fail-done at (JobError.unexpected m) j = reschedule-done at none _

-- The row of a number that a job of the list has
pub has_id-All : (i : ℕ) (js : List Row) → All (λ (x : Row). i ≢ x.id) js → has_id i js ≡ false
unfolding has_id
has_id-All i [] h = refl
has_id-All i (x ∷ js) h = ground (arith, has_id-All i js h.1)

module _ (i : ℕ) (f : Row → Row) where
  pub In-on_job :
      (r : Row) (table : List Row)
      → In r (on_job i f table)
      → (c : Row) × In c table × (((c.id ≡ i) × (r ≡ f c)) ⊎ (((c.id == i) ≡ false) × (r ≡ c)))
  unfolding on_job
  In-on_job r table m =
      let (c, k, e) = In-map (λ j. if j.id == i then f j else j) r table m in (c, k, split c e)
    where
      split :
          (c : Row)
          → r ≡ (if c.id == i then f c else c)
          → ((c.id ≡ i) × (r ≡ f c)) ⊎ (((c.id == i) ≡ false) × (r ≡ c))
      split c e = elim (Bool-cases (c.id == i)) [
        | inl same ↦ inl ((==_iff c.id i).0 same, e ∙ rw same)
        | inr other ↦ inr (other, e ∙ rw other)
      ]

  pub In-on_job_other :
      (r : Row) (table : List Row) → In r table → (r.id == i) ≡ false → In r (on_job i f table)
  unfolding on_job
  In-on_job_other r table m other =
      subst (λ x. In x (map (λ j. if j.id == i then f j else j) table)) (kept other)
        (In-map_intro (λ j. if j.id == i then f j else j) r table m)
    where
      kept : (r.id == i) ≡ false → (if r.id == i then f r else r) ≡ r
      kept other = rw other

module _ {V W : Type 0} (process : JobView → W → JobError ⊎ (V × W)) (cfg : Settings) (draw : ℕ → ℕ)
    (clock : ℕ → ℕ) where
  -- How one job of the loop ends: an operation on its row, and whether it counts as processed
  pub record Ends (j : Row) (p q : Progress W) : Type 0 where
    pub op : Row → Row
    pub counted : ℕ
    pub table_is : q.table ≡ on_job j.id op p.table
    pub processed_is : q.processed ≡ counted + p.processed
    pub keeps : (c : Row) → (op c).id ≡ c.id
    pub settles : (c : Row) → IsSettled cfg draw c (op c)
    pub done_is : (c : Row) → (if is_done (op c).status then 1 else 0) ≡ counted

  pub finish-Ends :
      (j : Row) (o : JobError ⊎ (V × W)) (p : Progress W)
      → Ends j p (finish process cfg draw clock j o p)
  unfolding complete
  finish-Ends j (inr (v, w)) p = record {
    op = complete;
    counted = 1;
    table_is = refl;
    processed_is = omega arith;
    keeps = complete-Keeps cfg draw;
    settles = λ c. inl refl;
    done_is = λ c. refl;
  }
  finish-Ends j (inl e) p = record {
    op = fail cfg draw (clock j.id) e;
    counted = 0;
    table_is = refl;
    processed_is = omega arith;
    keeps = fail-Keeps cfg draw (clock j.id) e;
    settles = λ c. inr (clock j.id, e, refl);
    done_is = λ c. rw (fail-done cfg draw (clock j.id) e c);
  }
