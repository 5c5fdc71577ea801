-- ===== src/Service/Worker/Recorded.antt =====
-- The results that a pass of src/prooflens/worker.py stores, with `process_job` of
-- src/prooflens/service/processor.py on each job.
use prooflens.Base.{
  ℕ, suc, ◌+◌, ◌≡◌, refl, sym, ap, ◌∙◌, String, Bool, Option, none, some, List, [], ◌∷◌, ◌⊎◌, inl,
  inr, Dict, lookup, string_eq, length, length-append, arith,
}
use prooflens.Vision.Schema.{Attempt, VisionBackend}
use prooflens.Engine.Number.{Float}
use prooflens.Engine.Types.{Verdict}
use prooflens.Engine.Imaging.{Imaging}
use prooflens.Engine.Pipeline.{HashStore, Times}
use prooflens.Queue.Backoff.{JobError}
use prooflens.Queue.Jobs.{Job, Settings, claim_batch}
use prooflens.Service.Ids.{Casing}
use prooflens.Service.Repo.{Results, record_result}
use prooflens.Service.Processor.{
  JobPayload, TenantView, JobView, World, resolve_image_bytes, settle, score_job, process_for,
  process_job,
}
use prooflens.Service.Worker.{Progress, job_view, finish, drain, run_once}

module _ (F : Float) (I : Imaging F.Carrier) (H : HashStore) (C : Casing) (t : Times F I H)
    {L : Type 0} (b64decode : String → Attempt I.Bytes)
    (build_vision_backend : String → Attempt (VisionBackend I.Bytes)) (show : F.Carrier → String)
    (update_custom_fields : String → List (String × String) → L → JobError ⊎ L)
    (tenants : Dict String (TenantView F.Carrier)) (rid stamp : JobView → ℕ)
    (ms : JobView → F.Carrier) (summary : JobView → Option String) where
  abbrev State : Type 0
  State = World F.Carrier H.Store L

  -- `process_job` with the number, time, latency and summary that the job's result gets
  abbrev pub process : JobView → State → JobError ⊎ (Verdict F.Carrier × State)
  process job w =
      process_job F I H C t b64decode build_vision_backend show update_custom_fields tenants
        (rid job) (stamp job) (ms job) (summary job) job w

  abbrev stored_count : State → ℕ
  stored_count w = length w.stored.results

  -- The stored results after a job that succeeded; after an error they are rolled back.
  abbrev count_after : ℕ → JobError ⊎ (Verdict F.Carrier × State) → ℕ
  count_after n (inl e) = n
  count_after n (inr (v, w)) = stored_count w

  error_ne :
      (e : JobError) (v : Verdict F.Carrier) (w : State)
      → ◌≡◌ {A = JobError ⊎ (Verdict F.Carrier × State)} (inl e) (inr (v, w))
      → ⊥
  error_ne e v w h = cc

  settle-counts :
      (job : JobView) (tenant : TenantView F.Carrier) (v v' : Verdict F.Carrier) (hashes : H.Store)
      (stored : Results F.Carrier) (o : JobError ⊎ L) (w : State)
      → settle F I H C t b64decode build_vision_backend show update_custom_fields
          (rid job)
          (stamp job)
          (ms job)
          (summary job)
          job
          tenant
          v
          hashes
          stored
          o
        ≡ inr (v', w)
      → stored_count w ≡ suc (length stored.results)
  unfolding record_result
  settle-counts job tenant v v' hashes stored (inl e) w h = absurd (error_ne e v' w h)
  settle-counts job tenant v v' hashes stored (inr lsq) w h =
      sym (ap (count_after 0) h) ∙ length-append stored.results _ ∙ omega arith

  score_job-counts :
      (job : JobView) (tenant : TenantView F.Carrier) (image : JobError ⊎ I.Bytes)
      (v : Verdict F.Carrier) (w w' : State)
      → score_job F I H C t b64decode build_vision_backend show update_custom_fields
          (rid job)
          (stamp job)
          (ms job)
          (summary job)
          job
          tenant
          image
          w
        ≡ inr (v, w')
      → stored_count w' ≡ suc (stored_count w)
  score_job-counts job tenant (inl e) v w w' h = absurd (error_ne e v w' h)
  score_job-counts job tenant (inr image) v w w' h = settle-counts job tenant _ v _ w.stored _ w' h

  process-counts :
      (job : JobView) (v : Verdict F.Carrier) (w w' : State)
      → process job w ≡ inr (v, w')
      → stored_count w' ≡ suc (stored_count w)
  unfolding process_job
  process-counts job v w w' h = for_tenant (lookup job.tenant_id tenants) h
    where
      for_tenant :
          (o : Option (TenantView F.Carrier))
          → process_for F I H C t b64decode build_vision_backend show update_custom_fields
              (rid job)
              (stamp job)
              (ms job)
              (summary job)
              job
              o
              w
            ≡ inr (v, w')
          → stored_count w' ≡ suc (stored_count w)
      for_tenant none h = absurd (error_ne _ v w' h)
      for_tenant (some tenant) h =
          score_job-counts job tenant (resolve_image_bytes b64decode job.payload) v w w' h

  module _ (cfg : Settings) (draw clock : ℕ → ℕ) where
    drain-counts :
        (jobs : List (Job JobPayload)) (p : Progress State)
        → let q = drain process cfg draw clock jobs p in
          stored_count q.world + p.processed ≡ stored_count p.world + q.processed
    unfolding drain
    drain-counts [] p = refl
    drain-counts (j ∷ jobs) p =
        one (process (job_view j) p.world) refl
          (drain-counts jobs (finish process cfg draw clock j (process (job_view j) p.world) p))
      where
        one :
            (o : JobError ⊎ (Verdict F.Carrier × State))
            → process (job_view j) p.world ≡ o
            → let p' = finish process cfg draw clock j o p in
              let q = drain process cfg draw clock jobs p' in
              stored_count q.world + p'.processed ≡ stored_count p'.world + q.processed
              → stored_count q.world + p.processed ≡ stored_count p.world + q.processed
        one (inl e) h rest = rest
        one (inr (v, w)) h rest = omega (arith, rest, process-counts (job_view j) v p.world w h)

    -- A pass stores exactly one result for each job that it reports as processed, and none for a
    -- job that failed, whatever the failures are.
    pub run_once-recorded :
        (locked : ℕ → Bool) (now limit : ℕ) (table : List (Job JobPayload)) (world : State)
        → let p = run_once process cfg draw clock locked now limit table world in
          length p.world.stored.results ≡ length world.stored.results + p.processed
    unfolding run_once
    run_once-recorded locked now limit table world = omega (
      arith,
      drain-counts (claim_batch locked now limit table).0
          (record { processed = 0; table = (claim_batch locked now limit table).1; world = world }),
    )
