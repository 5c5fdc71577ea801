-- ===== src/Service/Worker/Pass.antt =====
-- A pass of src/prooflens/worker.py over the queue: what becomes of the claimed jobs.
use prooflens.Base.{
  ℕ, ◌+◌, ◌≡◌, refl, sym, ap, ◌∙◌, subst, ◌⊎◌, inl, inr, Bool, true, false, List, [], ◌∷◌, map, In,
  All, All-In_intro, IsDistinctOn, IsDistinctOn-map, IsDistinctOn-filter, filter, ◌==◌, ==_iff,
  Bool-cases, arith,
}
use prooflens.Queue.Backoff.{JobError}
use prooflens.Queue.Jobs.{Settings, on_job, has_id, selected, claim, claim_if, claim_batch}
use prooflens.Queue.Claim.{claim_batch-lem}
use prooflens.Service.Processor.{JobView}
use prooflens.Service.Worker.{Progress, job_view, finish, drain, run_once}
use prooflens.Service.Worker.Counted.{IsOpen, done_jobs, drain-done}
use prooflens.Service.Worker.Settled.{
  Row, number, is_done, IsSettled, has_id-All, In-on_job, Ends, finish-Ends,
}

claim_batch-IsDistinctOn :
    (locked : ℕ → Bool) (now limit : ℕ) (table : List Row)
    → IsDistinctOn number table
    → IsDistinctOn number (claim_batch locked now limit table).0
      × IsDistinctOn number (claim_batch locked now limit table).1
unfolding claim_batch claim claim_if
claim_batch-IsDistinctOn locked now limit table d =
    let rows = selected locked now limit table in
    (
      IsDistinctOn-map number (claim now) (filter (λ j. has_id j.id rows) table) (λ c. refl)
          (IsDistinctOn-filter number (λ j. has_id j.id rows) table d),
      IsDistinctOn-map number (λ j. claim_if (has_id j.id rows) now j) table
          (λ c. kept (has_id c.id rows) c) d,
    )
  where
    kept : (b : Bool) (c : Row) → (claim_if b now c).id ≡ c.id
    kept true c = refl
    kept false c = refl

claim_batch-IsOpen :
    (locked : ℕ → Bool) (now limit : ℕ) (table : List Row)
    → IsDistinctOn number table
    → All (IsOpen (claim_batch locked now limit table).1) (claim_batch locked now limit table).0
claim_batch-IsOpen locked now limit table d =
    All-In_intro (IsOpen (claim_batch locked now limit table).1)
      (claim_batch locked now limit table).0
      (λ j i.
        let (old, m, claimable, claimed, here) = (claim_batch-lem locked now limit table d).1 j i in
        (here, ap is_done claimed.1))

abbrev pub IsLeft : Settings → (ℕ → ℕ) → List Row → List Row → Row → Type 0
IsLeft cfg draw jobs table r =
    (In r table × (has_id r.id jobs ≡ false))
    ⊎ ((c : Row) × In c table × (has_id c.id jobs ≡ true) × (r.id ≡ c.id) × IsSettled cfg draw c r)

module _ {V W : Type 0} (process : JobView → W → JobError ⊎ (V × W)) (cfg : Settings) (draw : ℕ → ℕ)
    (clock : ℕ → ℕ) where
  abbrev next : Row → Progress W → Progress W
  next j p = finish process cfg draw clock j (process (job_view j) p.world) p

  has_id-first : (c j : Row) (jobs : List Row) → c.id ≡ j.id → has_id c.id (j ∷ jobs) ≡ true
  unfolding has_id
  has_id-first c j jobs same = rw (same, (==_iff j.id j.id).1 refl)

  has_id-rest :
      (c j : Row) (jobs : List Row)
      → (c.id == j.id) ≡ false
      → has_id c.id (j ∷ jobs) ≡ has_id c.id jobs
  unfolding has_id
  has_id-rest c j jobs other = ground arith

  ne_absurd : false ≡ true → ⊥
  ne_absurd h = cc

  -- One job more: what the rest of the loop leaves alone is left alone, or is this job's row.
  one_more :
      (j r : Row) (jobs : List Row) (p q : Progress W)
      → Ends process cfg draw clock j p q
      → has_id j.id jobs ≡ false
      → IsLeft cfg draw jobs q.table r
      → IsLeft cfg draw (j ∷ jobs) p.table r
  one_more j r jobs p q e fresh (inl (m, absent)) =
      let (c, k, is) = In-on_job j.id e.op r p.table (subst (In r) e.table_is m) in
      elim is [
        | inl (mine, here) ↦ inr (
          c,
          k,
          has_id-first c j jobs mine,
          ap number here ∙ e.keeps c,
          subst (IsSettled cfg draw c) (sym here) (e.settles c),
        )
        | inr (other, here) ↦ inl (
          subst (λ x. In x p.table) (sym here) k,
          has_id-rest r j jobs (ap (λ (x : Row). x.id == j.id) here ∙ other) ∙ absent,
        )
      ]
  one_more j r jobs p q e fresh (inr (c, m, present, same, settled)) =
      let (d, k, is) = In-on_job j.id e.op c p.table (subst (In c) e.table_is m) in
      elim is [
        | inl (mine, here) ↦ absurd (
            ne_absurd
              (sym (ap (λ i. has_id i jobs) (ap number here ∙ e.keeps d ∙ mine) ∙ fresh) ∙ present))
        | inr (other, here) ↦ inr (
          c,
          subst (λ x. In x p.table) (sym here) k,
          has_id-rest c j jobs (ap (λ (x : Row). x.id == j.id) here ∙ other) ∙ present,
          same,
          settled,
        )
      ]

  -- What the loop leaves of a table: a row of no claimed job as it was, or a claimed job's,
  -- settled.
  drain-IsLeft :
      (jobs : List Row) (p : Progress W) (r : Row)
      → IsDistinctOn number jobs
      → In r (drain process cfg draw clock jobs p).table
      → IsLeft cfg draw jobs p.table r
  unfolding drain has_id
  drain-IsLeft [] p r d m = inl (m, refl)
  drain-IsLeft (j ∷ jobs) p r d m =
      one_more j r jobs p (next j p) (finish-Ends process cfg draw clock j _ p)
        (has_id-All j.id jobs d.0) (drain-IsLeft jobs (next j p) r d.1 m)

  map-number-on_job :
      (i : ℕ) (op : Row → Row) (table : List Row)
      → ((c : Row) → (op c).id ≡ c.id)
      → map number (on_job i op table) ≡ map number table
  unfolding on_job
  map-number-on_job i op [] keeps = refl
  map-number-on_job i op (c ∷ table) keeps = elim (Bool-cases (c.id == i)) [
    | inl mine ↦ rw (mine, keeps c, map-number-on_job i op table keeps)
    | inr other ↦ rw (other, map-number-on_job i op table keeps)
  ]

  -- The loop neither adds nor drops nor reorders jobs.
  map-number-drain :
      (jobs : List Row) (p : Progress W)
      → map number (drain process cfg draw clock jobs p).table ≡ map number p.table
  unfolding drain
  map-number-drain [] p = refl
  map-number-drain (j ∷ jobs) p =
      let e = finish-Ends process cfg draw clock j (process (job_view j) p.world) p in
      map-number-drain jobs (next j p)
      ∙ ap (map number) e.table_is
      ∙ map-number-on_job j.id e.op p.table e.keeps

  -- Where the jobs have distinct numbers, a pass leaves each row as the claim left it or, for a job
  -- that it claimed, settled: completed, or failed by an error, so that none stays in progress. It
  -- neither adds nor drops jobs, and as many jobs more are done as it says it processed.
  pub run_once-settles :
      (locked : ℕ → Bool) (now limit : ℕ) (table : List Row) (world : W)
      → IsDistinctOn number table
      → let (jobs, claimed) = claim_batch locked now limit table in
        let p = run_once process cfg draw clock locked now limit table world in
        ((r : Row) → In r p.table → IsLeft cfg draw jobs claimed r)
        × (map number p.table ≡ map number claimed)
        × (done_jobs p.table ≡ done_jobs claimed + p.processed)
  unfolding run_once
  run_once-settles locked now limit table world d =
      let start : Progress W = record {
        processed = 0;
        table = (claim_batch locked now limit table).1;
        world = world;
      } in
      let jobs = (claim_batch locked now limit table).0 in
      let apart = claim_batch-IsDistinctOn locked now limit table d in
      (
        λ r m. drain-IsLeft jobs start r apart.0 m,
        map-number-drain jobs start,
        omega (
          arith,
          drain-done process cfg draw clock jobs start apart.1 apart.0
              (claim_batch-IsOpen locked now limit table d),
        ),
      )
