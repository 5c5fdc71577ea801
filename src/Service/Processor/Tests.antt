-- ===== src/Service/Processor/Tests.antt =====
-- One job of src/prooflens/service/processor.py with no vision backend.
use prooflens.Base.{ℕ, ◌≡◌, refl, ◌≢◌, inl, inr, true, [], ◌∷◌, ◌++◌, none, show_nat}
use prooflens.Engine.Number.{decimals, lt}
use prooflens.Engine.Types.{Verdict}
use prooflens.Engine.Verdicts.{Band}
use prooflens.Engine.Fusion.{clamp_score}
use prooflens.Engine.Pipeline.InMemory.{in_memory}
use prooflens.Engine.Pipeline.{score}
use prooflens.Engine.HashStore.{Store}
use prooflens.Service.Processor.{
  World, resolve_image_bytes, process_job, write_back, ordered_updates,
}
use prooflens.Queue.Backoff.{unexpected}
use prooflens.Service.Processor.FailOpen.{process_job-no_backend}
use prooflens.Service.Processor.Samples.{
  plain, flat, tenant, job, Log, logged, no_key, start, no_time, decode,
}

readable : resolve_image_bytes decode job.payload ≡ inr "00ff"
unfolding resolve_image_bytes
readable = refl

below : lt decimals (clamp_score decimals 69000) 70000 ≡ true
unfolding clamp_score
below = refl

process_job-no_backend_example :
    (v : Verdict ℕ) × (w : World ℕ Store Log) × (process_job decimals flat in_memory plain no_time
        decode no_key show_nat logged
        (("acme", tenant) ∷ [])
        1
        99
        0
        none
        job
        start
      ≡ inr (v, w))
    × (v.band ≢ Band.clear)
process_job-no_backend_example =
    process_job-no_backend decimals flat in_memory plain no_time decode no_key show_nat logged
      (("acme", tenant) ∷ []) 1 99 0 none job start tenant "00ff" "no API key" refl readable refl
      below (λ o u l. (l ++ (o, u) ∷ [], refl)) (λ opp. ("f1", "f2", "f3", refl, refl, refl))

-- A tenant whose field map is left at its default
no_fields :
    process_job decimals flat in_memory plain no_time decode no_key show_nat logged
      (("acme", record tenant { field_map = [] }) ∷ [])
      1
      99
      0
      none
      job
      start
    ≡ inl (unexpected "'band'")
unfolding process_job resolve_image_bytes score write_back ordered_updates
no_fields = refl
