-- ===== src/Service/Worker/Counted.antt =====
-- How many jobs a pass of src/prooflens/worker.py completes.
use prooflens.Base.{
  ℕ, suc, ◌+◌, ◌≡◌, refl, sym, ap, ◌∙◌, subst, ◌≢◌, ◌⊎◌, inl, inr, Bool, true, false, List, [], ◌∷◌,
  count, In, All, All-In, IsDistinctOn, IsDistinctOn-map, ◌==◌, Bool-cases, if◌then◌else◌, arith,
}
use prooflens.Queue.Backoff.{JobError}
use prooflens.Queue.Jobs.{Settings, on_job}
use prooflens.Service.Processor.{JobView}
use prooflens.Service.Worker.{Progress, job_view, finish, drain}
use prooflens.Service.Worker.Settled.{Row, number, is_done, In-on_job_other, finish-Ends}

-- A claimed job that is in the table and not done yet
abbrev pub IsOpen : List Row → Row → Type 0
IsOpen table j = In j table × (is_done j.status ≡ false)

abbrev pub done_jobs : List Row → ℕ
done_jobs table = count (λ j. is_done j.status) table

differs : (a b : ℕ) → b ≢ a → (a == b) ≡ false
differs a b h = ground (arith, h)

same_number : (a : ℕ) → (a == a) ≡ true
same_number a = ground arith

add_counted :
    (b : Bool) (counted m n : ℕ)
    → (if b then 1 else 0) ≡ counted
    → m ≡ n
    → (if b then suc m else m) ≡ counted + n
add_counted true counted m n h e = omega arith
add_counted false counted m n h e = omega arith

add_open : (b : Bool) (counted n : ℕ) → b ≡ false → counted + n ≡ counted + (if b then suc n else n)
add_open b counted n h = rw h

add_later :
    (b : Bool) (counted m n : ℕ)
    → m ≡ counted + n
    → (if b then suc m else m) ≡ counted + (if b then suc n else n)
add_later true counted m n h = omega arith
add_later false counted m n h = h

-- A job that is in the table and is not done adds one to the done jobs where it is completed.
done_jobs-other :
    (i : ℕ) (op : Row → Row) (table : List Row)
    → All (λ (x : Row). i ≢ x.id) table
    → done_jobs (on_job i op table) ≡ done_jobs table
unfolding on_job
done_jobs-other i op [] h = refl
done_jobs-other i op (c ∷ table) h =
    rw (differs c.id i h.0)
      (ap (λ n. if is_done c.status then suc n else n) (done_jobs-other i op table h.1))

done_jobs-on_job :
    (op : Row → Row) (counted : ℕ) (j : Row) (table : List Row)
    → ((c : Row) → (if is_done (op c).status then 1 else 0) ≡ counted)
    → IsDistinctOn number table
    → In j table
    → is_done j.status ≡ false
    → done_jobs (on_job j.id op table) ≡ counted + done_jobs table
unfolding on_job
done_jobs-on_job op counted j [] done_is d m open_job = absurd m
done_jobs-on_job op counted j (c ∷ table) done_is d (inl same) open_job =
    subst (λ i. done_jobs (on_job i op (c ∷ table)) ≡ counted + done_jobs (c ∷ table))
      (ap number (sym same))
      (rw (same_number c.id) (
        add_counted (is_done (op c).status) counted _ _ (done_is c)
          (done_jobs-other c.id op table d.0)
        ∙ add_open (is_done c.status) counted _
            (ap (λ (x : Row). is_done x.status) (sym same) ∙ open_job)))
done_jobs-on_job op counted j (c ∷ table) done_is d (inr m) open_job =
    rw (differs c.id j.id (λ e. All-In (λ (x : Row). c.id ≢ x.id) j table d.0 m (sym e))) (
      add_later (is_done c.status) counted _ _
        (done_jobs-on_job op counted j table done_is d.1 m open_job))

on_job-IsDistinctOn :
    (i : ℕ) (op : Row → Row) (table : List Row)
    → ((c : Row) → (op c).id ≡ c.id)
    → IsDistinctOn number table
    → IsDistinctOn number (on_job i op table)
unfolding on_job
on_job-IsDistinctOn i op table keeps d =
    IsDistinctOn-map number (λ c. if c.id == i then op c else c) table kept d
  where
    kept : (c : Row) → (if c.id == i then op c else c).id ≡ c.id
    kept c = elim (Bool-cases (c.id == i)) [ inl mine ↦ rw mine (keeps c) | inr other ↦ rw other ]

still-IsOpen :
    (i : ℕ) (op : Row → Row) (table jobs : List Row)
    → All (λ (x : Row). i ≢ x.id) jobs
    → All (IsOpen table) jobs
    → All (IsOpen (on_job i op table)) jobs
still-IsOpen i op table [] apart opened = tt
still-IsOpen i op table (j ∷ jobs) apart opened = (
  (In-on_job_other i op j table opened.0.0 (differs j.id i apart.0), opened.0.1),
  still-IsOpen i op table jobs apart.1 opened.1,
)

module _ {V W : Type 0} (process : JobView → W → JobError ⊎ (V × W)) (cfg : Settings) (draw : ℕ → ℕ)
    (clock : ℕ → ℕ) where
  abbrev next : Row → Progress W → Progress W
  next j p = finish process cfg draw clock j (process (job_view j) p.world) p

  pub drain-done :
      (jobs : List Row) (p : Progress W)
      → IsDistinctOn number p.table
      → IsDistinctOn number jobs
      → All (IsOpen p.table) jobs
      → let q = drain process cfg draw clock jobs p in
        done_jobs q.table + p.processed ≡ done_jobs p.table + q.processed
  unfolding drain
  drain-done [] p d dj opened = refl
  drain-done (j ∷ jobs) p d dj opened =
      let e = finish-Ends process cfg draw clock j (process (job_view j) p.world) p in
      let here =
        ap done_jobs e.table_is
        ∙ done_jobs-on_job e.op e.counted j p.table e.done_is d opened.0.0 opened.0.1 in
      let later =
        drain-done jobs (next j p)
          (subst (IsDistinctOn number) (sym e.table_is)
            (on_job-IsDistinctOn j.id e.op p.table e.keeps d))
          dj.1
          (subst (λ l. All (IsOpen l) jobs) (sym e.table_is)
            (still-IsOpen j.id e.op p.table jobs dj.0 opened.1)) in
      omega (arith, here, later, e.processed_is)
