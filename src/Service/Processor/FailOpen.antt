-- ===== src/Service/Processor/FailOpen.antt =====
-- A vision backend that cannot be built, in src/prooflens/service/processor.py: the job is scored
-- all the same.
use prooflens.Base.{
  ℕ, String, ◌≡◌, refl, ap, ◌≢◌, ◌⊎◌, inl, inr, true, false, List, Option, some, Dict, lookup,
  string_eq, Bool-cases, or_else,
}
use prooflens.Vision.Schema.{Attempt, returned, raised, VisionBackend}
use prooflens.Engine.Number.{Float, lt}
use prooflens.Engine.Verdicts.{Band}
use prooflens.Engine.Types.{Verdict}
use prooflens.Engine.Fusion.{clamp_score}
use prooflens.Engine.Fusion.Bands.{fuse-unavailable_ne_clear}
use prooflens.Engine.Imaging.{Imaging}
use prooflens.Engine.Checks.Relevance.{ask_twice, content_outcome, relevance_run}
use prooflens.Engine.Pipeline.{
  HashStore, Context, Times, score, content_check, free_hard_gate_fired, free_checks,
}
use prooflens.Engine.Pipeline.Steps.{lookup_checks}
use prooflens.Queue.Backoff.{JobError}
use prooflens.Service.Ids.{Casing}
use prooflens.Service.Processor.{
  TenantView, FieldMap, ordered_updates, JobView, World, given, resolve_image_bytes, write_back,
  settle, context_of, backend_or_unavailable, process_job,
}

ask_twice-raises :
    {Bytes : Type 0} (vision : VisionBackend Bytes) (image : Bytes) (e d : String)
    → vision.assess 0 image ≡ raised e
    → vision.assess 1 image ≡ raised d
    → ask_twice vision image ≡ (raised d, 2)
unfolding ask_twice
ask_twice-raises vision image e d first second = rw (first, second, ask_twice)

unavailable-raises :
    {Bytes : Type 0} (name : String) (built : Attempt (VisionBackend Bytes)) (e : String) (n : ℕ)
    (image : Bytes)
    → built ≡ raised e
    → (d : String) × ((backend_or_unavailable name built).assess n image ≡ raised d)
unavailable-raises name (returned b) e n image h = cc
unavailable-raises name (raised b) e n image h = (_, refl)

module _ (F : Float) (I : Imaging F.Carrier) (H : HashStore) (t : Times F I H) (image : I.Bytes)
    (ctx : Context F.Carrier I.Bytes) (s : H.Store) where
  content_off :
      (e d : String)
      → ctx.vision.assess 0 image ≡ raised e
      → ctx.vision.assess 1 image ≡ raised d
      → (content_check F I H t image ctx (free_checks F I H t image ctx s)).0.available ≡ false
  unfolding content_check relevance_run content_outcome
  content_off e d first second =
      elim (Bool-cases (free_hard_gate_fired (free_checks F I H t image ctx s))) [
        | inl fired ↦ rw fired
        | inr quiet ↦ rw (quiet, ask_twice-raises ctx.vision image e d first second)
      ]

  score-no_vision :
      (e d : String)
      → ctx.vision.assess 0 image ≡ raised e
      → ctx.vision.assess 1 image ≡ raised d
      → lt F (clamp_score F ctx.scoring.caps.no_content) ctx.scoring.bands.clear ≡ true
      → (score F I H t image ctx s).0.band ≢ Band.clear
  unfolding score
  score-no_vision e d first second below =
      fuse-unavailable_ne_clear F _ ctx.scoring _ (lookup_checks F I H t image ctx s).2
        (content_off e d first second) below

module _ (F : Float) (I : Imaging F.Carrier) (H : HashStore) (C : Casing) (t : Times F I H)
    {L : Type 0} (b64decode : String → Attempt I.Bytes)
    (build_vision_backend : String → Attempt (VisionBackend I.Bytes)) (show : F.Carrier → String)
    (update_custom_fields : String → List (String × String) → L → JobError ⊎ L) where
  -- LSQ takes every update.
  abbrev pub Accepts : Type 0
  Accepts =
      (o : String) (u : List (String × String)) (l : L)
      → (l' : L) × (update_custom_fields o u l ≡ inr l')

  -- The field map has the three keys of the write-back.
  abbrev pub HasFields : FieldMap → Type 0
  HasFields fm =
      (band_field score_field reason_field : String) × (lookup "band" fm ≡ some band_field)
      × (lookup "score" fm ≡ some score_field)
      × (lookup "reason" fm ≡ some reason_field)

  ordered_updates-HasFields :
      (fm : FieldMap) (v : Verdict F.Carrier)
      → HasFields fm
      → (u : List (String × String)) × (ordered_updates show fm v ≡ inr u)
  unfolding ordered_updates
  ordered_updates-HasFields fm v (band_field, score_field, reason_field, b, s, r) =
      rw (b, s, r) (_, refl)

  write_back-Accepts :
      (tenant : TenantView F.Carrier) (o : Option String) (v : Verdict F.Carrier) (l : L)
      → Accepts
      → (given o ≡ true → HasFields tenant.field_map)
      → (l' : L) × (write_back F I H C t b64decode build_vision_backend show update_custom_fields
            tenant.field_map o v l
          ≡ inr l')
  unfolding write_back
  write_back-Accepts tenant o v l a fields = elim (Bool-cases (given o)) [
    | inl full ↦
        let (u, made) = ordered_updates-HasFields tenant.field_map v (fields full) in
        rw (full, made) (a (or_else o "") u l)
    | inr blank ↦ rw blank (l, refl)
  ]

  -- Where a known tenant's vision backend cannot be built, the image can be read, LSQ takes updates
  -- and, where the job has an opportunity, the tenant's field map has the keys band, score and
  -- reason, the job succeeds with a verdict, which is not Clear as long as the rounded cap for a
  -- missing vision check lies below the Clear threshold.
  pub process_job-no_backend :
      (tenants : Dict String (TenantView F.Carrier)) (rid now : ℕ) (ms : F.Carrier)
      (summary : Option String) (job : JobView) (w : World F.Carrier H.Store L)
      (tenant : TenantView F.Carrier) (image : I.Bytes) (e : String)
      → lookup job.tenant_id tenants ≡ some tenant
      → resolve_image_bytes b64decode job.payload ≡ inr image
      → build_vision_backend tenant.vision_backend ≡ raised e
      → lt F (clamp_score F tenant.scoring.caps.no_content) tenant.scoring.bands.clear ≡ true
      → Accepts
      → (given job.payload.opportunity_id ≡ true → HasFields tenant.field_map)
      → (v : Verdict F.Carrier) × (w' : World F.Carrier H.Store L) × (process_job F I H C t
            b64decode build_vision_backend show update_custom_fields tenants rid now ms summary job
            w
          ≡ inr (v, w'))
        × (v.band ≢ Band.clear)
  unfolding process_job
  process_job-no_backend tenants rid now ms summary job w tenant image e known read broken below a
        fields =
      let ctx : Context F.Carrier I.Bytes = context in
      let (d, first) =
        unavailable-raises tenant.vision_backend (build_vision_backend tenant.vision_backend) e 0
          image broken in
      let (c, second) =
        unavailable-raises tenant.vision_backend (build_vision_backend tenant.vision_backend) e 1
          image broken in
      let v = (score F I H t image ctx w.hashes).0 in
      let (l, taken) = write_back-Accepts tenant job.payload.opportunity_id v w.lsq a fields in
      rw (known, read)
        (
          v,
          _,
          ap
              (settle F I H C t b64decode build_vision_backend show update_custom_fields rid now ms
                summary job tenant v (score F I H t image ctx w.hashes).1 w.stored)
              taken,
          score-no_vision F I H t image ctx w.hashes d c first second below,
        )
    where
      context : Context F.Carrier I.Bytes
      context =
          context_of F I H C t b64decode build_vision_backend show update_custom_fields tenant
            job.payload
