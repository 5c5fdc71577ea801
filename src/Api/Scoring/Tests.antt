-- ===== src/Api/Scoring/Tests.antt =====
-- Runs of `score_bytes` of src/prooflens/api/scoring.py.
use prooflens.Base.{
  ℕ, String, ◌≡◌, refl, inl, inr, true, [], Option, none, some, str_eq, if◌then◌else◌, strip,
  lstrip, rstrip, is_space_code,
}
use prooflens.Vision.Schema.{Attempt, returned, raised, VisionBackend}
use prooflens.Engine.Number.{decimals}
use prooflens.Engine.HashStore.{Store}
use prooflens.Engine.Pipeline.InMemory.{in_memory}
use prooflens.Service.Repo.{Results}
use prooflens.Service.Processor.Samples.{plain, flat, tenant, no_time}
use prooflens.Api.Scoring.{Attribution, Scored, requested, score_bytes}
use prooflens.Api.Scoring.FailOpen.{FailsOpen, score_bytes-FailsOpen}

abbrev silent : VisionBackend String
silent = record { name = "groq"; is_real = true; assess = λ n b. raised "timeout" }

-- One backend is configured, whose calls fail.
abbrev build : String → Attempt (VisionBackend String)
build name = if str_eq name "groq" then returned silent else raised "no API key"

abbrev nobody : Attribution
nobody = record { rep_id = none; opportunity_id = none; source = none }

abbrev no_results : Results ℕ
no_results = record { results = []; audit_log = [] }

abbrev scored : Option String → Scored ℕ Store
scored backend =
    score_bytes decimals flat in_memory plain no_time (λ s. s) (λ s. s) "hybrid" build backend 1 99
      "00ff" tenant nobody [] no_results

abbrev error_of : Scored ℕ Store → Option String
error_of s = elim s.answer [ inl e ↦ some e | inr p ↦ none ]

named_and_missing :
    error_of (scored (some "nvidia")) ≡ some "Live AI (nvidia) is unavailable: no API key"
unfolding score_bytes strip lstrip rstrip is_space_code
named_and_missing = refl

score_bytes-FailsOpen_example :
    FailsOpen decimals flat in_memory plain no_time
      (λ s. s)
      (λ s. s)
      "hybrid"
      build
      1
      99
      "00ff"
      tenant
      nobody
      []
      no_results
      none
      (build
        (requested decimals flat in_memory plain no_time (λ s. s) (λ s. s) "hybrid" build none))
      (scored none)
score_bytes-FailsOpen_example =
    score_bytes-FailsOpen decimals flat in_memory plain no_time (λ s. s) (λ s. s) "hybrid" build 1
      99 "00ff" tenant nobody [] no_results none
