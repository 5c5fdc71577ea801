-- ===== src/Api/Scoring/FailOpen.antt =====
-- What `score_bytes` of src/prooflens/api/scoring.py answers and keeps where a backend fails.
use prooflens.Base.{
  ℕ, suc, String, ◌≡◌, refl, subst, sym, ◌∙◌, ◌⊎◌, inl, inr, Bool, true, false, Option, none, some,
  length, length-append, text_append, arith,
}
use prooflens.Vision.Schema.{Attempt, returned, raised, VisionBackend, unavailable_vision}
use prooflens.Engine.Number.{Float}
use prooflens.Engine.Imaging.{Imaging}
use prooflens.Engine.Pipeline.{
  HashStore, Context, Times, dhash_of, free_checks, content_check, remember_after, score,
}
use prooflens.Service.Ids.{Casing}
use prooflens.Service.Repo.{Results, record_result}
use prooflens.Service.Processor.{TenantView}
use prooflens.Api.Scoring.{
  Attribution, Payload, Scored, content_failure, requested, live_ai, deferred, remember_hash,
  keep_or_raise, score_with, score_built, score_bytes,
}

module _ (F : Float) (I : Imaging F.Carrier) (H : HashStore) (C : Casing) (t : Times F I H)
    (lower : String → String) (shorten : String → String) (configured : String)
    (build_vision_backend : String → Attempt (VisionBackend I.Bytes)) (rid now : ℕ)
    (image : I.Bytes) (tenant : TenantView F.Carrier) (who : Attribution) (hashes : H.Store)
    (stored : Results F.Carrier) where
  abbrev delayed : VisionBackend I.Bytes → Context F.Carrier I.Bytes
  delayed vision =
      deferred F I H C t lower shorten configured build_vision_backend tenant vision who

  -- The same context, with the pipeline's own remember step
  abbrev pub at_once : VisionBackend I.Bytes → Context F.Carrier I.Bytes
  at_once vision = record {
    tenant_id = tenant.id;
    vision = vision;
    scoring = tenant.scoring;
    rep_id = who.rep_id;
    opportunity_id = who.opportunity_id;
    captured_at = none;
    remember_hash = true;
  }

  abbrev remembered : VisionBackend I.Bytes → Option String → H.Store → H.Store
  remembered vision =
      remember_hash F I H C t lower shorten configured build_vision_backend (delayed vision)

  remember_off :
      (vision : VisionBackend I.Bytes) (h : Option String)
      → remember_after F I H (delayed vision) h hashes ≡ hashes
  unfolding remember_after
  remember_off vision none = refl
  remember_off vision (some h) = refl

  remember_on :
      (vision : VisionBackend I.Bytes) (h : Option String)
      → remember_after F I H (at_once vision) h hashes ≡ remembered vision h hashes
  unfolding remember_after
  remember_on vision none = refl
  remember_on vision (some h) = refl

  same_verdict :
      (vision : VisionBackend I.Bytes)
      → (score F I H t image (at_once vision) hashes).0
        ≡ (score F I H t image (delayed vision) hashes).0
  unfolding score free_checks content_check
  same_verdict vision = refl

  kept_aside :
      (vision : VisionBackend I.Bytes) → (score F I H t image (delayed vision) hashes).1 ≡ hashes
  unfolding score
  kept_aside vision = remember_off vision _

  same_store :
      (vision : VisionBackend I.Bytes)
      → (score F I H t image (at_once vision) hashes).1
        ≡ remembered vision (dhash_of (score F I H t image (delayed vision) hashes).0.checks) hashes
  unfolding score free_checks content_check
  same_store vision = remember_on vision _

  -- The payload and the state are those of the pipeline when it remembers the hash itself, with one
  -- result more.
  abbrev pub IsKept : VisionBackend I.Bytes → Payload F.Carrier → Scored F.Carrier H.Store → Type 0
  IsKept vision p r =
      let (v, hashes', calls) = score F I H t image (at_once vision) hashes in
      (p.verdict ≡ v)
      × (r.hashes ≡ hashes')
      × (length r.stored.results ≡ suc (length stored.results))

  abbrev pub IsUnchanged : Scored F.Carrier H.Store → Type 0
  IsUnchanged r = (r.hashes ≡ hashes) × (r.stored ≡ stored)

  abbrev Lawful : Bool → VisionBackend I.Bytes → Scored F.Carrier H.Store → Type 0
  Lawful live vision r =
      ((e : String) × (r.answer ≡ inl e) × (live ≡ true) × IsUnchanged r)
      ⊎ ((p : Payload F.Carrier) × (r.answer ≡ inr p) × IsKept vision p r)

  abbrev finished :
      Bool → VisionBackend I.Bytes → Option String → H.Store → Scored F.Carrier H.Store
  finished live vision failure h =
      keep_or_raise F I H C t lower shorten configured build_vision_backend live rid now tenant
        vision who (score F I H t image (delayed vision) hashes).0 failure h stored

  keep-Lawful :
      (live : Bool) (vision : VisionBackend I.Bytes)
      → Lawful live vision (finished false vision none hashes)
  unfolding record_result
  keep-Lawful live vision = inr (
      (
        _,
        refl,
        (
          sym (same_verdict vision),
          sym (same_store vision),
          length-append stored.results _ ∙ omega arith,
        ),
      ))

  finished-Lawful :
      (live : Bool) (vision : VisionBackend I.Bytes) (failure : Option String)
      → Lawful live vision (finished live vision failure hashes)
  finished-Lawful live vision none = keep-Lawful live vision
  finished-Lawful false vision (some e) = keep-Lawful false vision
  finished-Lawful true vision (some e) = inl (_, refl, refl, (refl, refl))

  score_with-Lawful :
      (live : Bool) (vision : VisionBackend I.Bytes)
      → Lawful live vision (
          score_with F I H C t lower shorten configured build_vision_backend live rid now image
            tenant vision who hashes stored)
  score_with-Lawful live vision =
      let failure = content_failure (score F I H t image (delayed vision) hashes).0 in
      subst (λ h. Lawful live vision (finished live vision failure h)) (sym (kept_aside vision))
        (finished-Lawful live vision failure)

  -- The backend that scores: the one that was built, or the unavailable one on the default path
  abbrev pub IsBackend :
      Option String → Attempt (VisionBackend I.Bytes) → VisionBackend I.Bytes → Type 0
  IsBackend backend built vision =
      (built ≡ returned vision)
      ⊎ ((e : String) × (backend ≡ none)
          × (built ≡ raised e)
          × (vision
              ≡ unavailable_vision (
                  text_append
                    (requested F I H C t lower shorten configured build_vision_backend backend)
                    (text_append " unavailable: " e))))

  abbrev pub FailsOpen :
      Option String → Attempt (VisionBackend I.Bytes) → Scored F.Carrier H.Store → Type 0
  FailsOpen backend built r =
      ((e : String) × (b : String) × (r.answer ≡ inl e) × (backend ≡ some b) × IsUnchanged r)
      ⊎ ((p : Payload F.Carrier) × (vision : VisionBackend I.Bytes) × (r.answer ≡ inr p)
          × IsBackend backend built vision
          × IsKept vision p r)

  abbrev fallback : String → VisionBackend I.Bytes
  fallback e = unavailable_vision (
      text_append (requested F I H C t lower shorten configured build_vision_backend none)
        (text_append " unavailable: " e))

  abbrev scored_by : Option String → Attempt (VisionBackend I.Bytes) → Scored F.Carrier H.Store
  scored_by backend built =
      score_built F I H C t lower shorten configured build_vision_backend backend rid now image
        tenant who built hashes stored

  opened :
      (live : Bool) (backend : Option String) (built : Attempt (VisionBackend I.Bytes))
      (vision : VisionBackend I.Bytes) (r : Scored F.Carrier H.Store)
      → (live ≡ true → (b : String) × (backend ≡ some b))
      → IsBackend backend built vision
      → Lawful live vision r
      → FailsOpen backend built r
  opened live backend built vision r named h (inl (e, answer, is_live, kept)) =
      inl (e, (named is_live).0, answer, (named is_live).1, kept)
  opened live backend built vision r named h (inr (p, answer, kept)) =
      inr (p, vision, answer, h, kept)

  score_built-FailsOpen :
      (backend : Option String) (built : Attempt (VisionBackend I.Bytes))
      → FailsOpen backend built (scored_by backend built)
  score_built-FailsOpen none (returned vision) =
      opened false none (returned vision) vision _ (λ h. absurd (ne h)) (inl refl)
        (score_with-Lawful false vision)
    where
      ne : false ≡ true → ⊥
      ne h = cc
  score_built-FailsOpen none (raised e) =
      opened false none (raised e) (fallback e) _ (λ h. absurd (ne h)) (inr (e, refl, refl, refl))
        (score_with-Lawful false (fallback e))
    where
      ne : false ≡ true → ⊥
      ne h = cc
  score_built-FailsOpen (some b) (returned vision) =
      let live = live_ai F I H C t lower shorten configured build_vision_backend (some b) in
      opened live (some b) (returned vision) vision _ (λ h. (b, refl)) (inl refl)
        (score_with-Lawful live vision)
  score_built-FailsOpen (some b) (raised e) = inl (_, b, refl, refl, (refl, refl))

  -- Either the answer is a 503, the request named a backend, and the hashes and the results are as
  -- they were, so that a retry is no duplicate of it; or the answer is a verdict. A request that
  -- names no backend is thus always answered with a verdict, also where the configured backend
  -- cannot be built or its calls fail. The verdict, and the hashes after it, are those of the
  -- pipeline where it remembers the hash itself, with the backend that was built or, for a request
  -- that names none and a backend that cannot be built, the unavailable one; and one result more is
  -- stored.
  pub score_bytes-FailsOpen :
      (backend : Option String)
      → FailsOpen backend
          (build_vision_backend
            (requested F I H C t lower shorten configured build_vision_backend backend))
          (score_bytes F I H C t lower shorten configured build_vision_backend backend rid now image
            tenant who hashes stored)
  unfolding score_bytes
  score_bytes-FailsOpen backend = score_built-FailsOpen backend _
