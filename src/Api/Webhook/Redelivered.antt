-- ===== src/Api/Webhook/Redelivered.antt =====
-- An event that the webhook of src/prooflens/api/app.py receives more than once.
use prooflens.Base.{
  ℕ, String, ◌≡◌, refl, sym, ap, ◌∙◌, subst, ◌⊎◌, inl, inr, true, false, List, [], ◌∷◌, ◌++◌,
  Option, none, some, find, In-any, find-eq-some, if◌then◌else◌, arith,
}
use prooflens.Queue.Jobs.{Job, Settings, same_event, new_job, enqueue}
use prooflens.Queue.Idempotent.{
  has_event, enqueue-new, enqueue-twice, Steps, Steps-has_event, find-known,
}
use prooflens.Service.Ids.{Casing}
use prooflens.Service.Processor.{JobPayload, TenantView}
use prooflens.Db.Organisation.{TenantRow, pg_tenant_by_slug}
use prooflens.Db.JobQueue.{is_job_storable, enqueue_if_new, pg_enqueue}
use prooflens.Db.Columns.{is_storable}
use prooflens.Api.Webhook.{
  WebhookPayload, WebhookAnswer, accepted, duplicate, dumped, verify, acked, if_signed,
  enqueue_payload, for_tenant, lsq_webhook,
}

-- The first delivery adds a job, or finds the one that the event has.
abbrev pub IsDelivered :
    Casing
    → Settings
    → ℕ
    → ℕ
    → String
    → WebhookPayload
    → List (Job JobPayload)
    → WebhookAnswer × List (Job JobPayload)
    → Type 0
IsDelivered C cfg new_id now tid p table (answer, table') =
    ((answer ≡ accepted new_id)
      × (table' ≡ table ++ new_job cfg new_id now tid p.event_id (dumped C p) ∷ []))
    ⊎ ((old : Job JobPayload) × (find (same_event tid p.event_id) table ≡ some old)
        × (answer ≡ duplicate old.id)
        × (table' ≡ table))

-- A job that the columns take has an event's id that the query takes.
storable-event :
    (event_id : String) (payload : JobPayload)
    → is_job_storable event_id payload ≡ true
    → is_storable event_id ≡ true
storable-event event_id payload h = ground (arith, h)

pg_enqueue-old :
    (cfg : Settings) (new_id now : ℕ) (tid event_id : String) (payload : JobPayload)
    (table : List (Job JobPayload)) (old : Job JobPayload)
    → is_storable event_id ≡ true
    → find (same_event tid event_id) table ≡ some old
    → pg_enqueue cfg new_id now tid event_id payload table ≡ some ((old.id, false), table)
unfolding pg_enqueue
pg_enqueue-old cfg new_id now tid event_id payload table old q f = rw (q, f)

pg_enqueue-new :
    (cfg : Settings) (new_id now : ℕ) (tid event_id : String) (payload : JobPayload)
    (table : List (Job JobPayload))
    → is_job_storable event_id payload ≡ true
    → find (same_event tid event_id) table ≡ none
    → pg_enqueue cfg new_id now tid event_id payload table
      ≡ some ((new_id, true), table ++ new_job cfg new_id now tid event_id payload ∷ [])
unfolding pg_enqueue
pg_enqueue-new cfg new_id now tid event_id payload table q f =
    ap
      (λ b.
        if b
        then enqueue_if_new cfg new_id now tid event_id payload table
            (find (same_event tid event_id) table)
        else none)
      (storable-event event_id payload q)
    ∙ ap (enqueue_if_new cfg new_id now tid event_id payload table) f
    ∙ ap
        (λ b.
          if b
          then some (
            ((enqueue cfg new_id now tid event_id payload table).0.id, true),
            (enqueue cfg new_id now tid event_id payload table).1,
          )
          else none)
        q
    ∙ ap (λ (r : Job JobPayload × List (Job JobPayload)). some ((r.0.id, true), r.1))
        (enqueue-new cfg new_id now tid event_id payload table f)

enqueued-IsDelivered :
    (C : Casing) (cfg : Settings) (new_id now : ℕ) (tid : String) (p : WebhookPayload)
    (table : List (Job JobPayload))
    → is_job_storable p.event_id (dumped C p) ≡ true
    → let r = acked table (pg_enqueue cfg new_id now tid p.event_id (dumped C p) table) in
      IsDelivered C cfg new_id now tid p table r × (has_event tid p.event_id r.1 ≡ true)
enqueued-IsDelivered C cfg new_id now tid p table q =
    by_search (find (same_event tid p.event_id) table) refl
  where
    by_search :
        (found : Option (Job JobPayload))
        → find (same_event tid p.event_id) table ≡ found
        → let r = acked table (pg_enqueue cfg new_id now tid p.event_id (dumped C p) table) in
          IsDelivered C cfg new_id now tid p table r × (has_event tid p.event_id r.1 ≡ true)
    by_search none f =
        let e = pg_enqueue-new cfg new_id now tid p.event_id (dumped C p) table q f in
        let (same, m, k, old) =
          enqueue-twice cfg new_id now tid p.event_id (dumped C p) table new_id now (dumped C p) in
        let known = In-any (same_event tid p.event_id) _ _ m k in
        rw e (
          inl (refl, refl),
          subst
              (λ (r : Job JobPayload × List (Job JobPayload)). has_event tid p.event_id r.1 ≡ true)
              (enqueue-new cfg new_id now tid p.event_id (dumped C p) table f) known,
        )
    by_search (some old) f =
        let (m, k) = find-eq-some (same_event tid p.event_id) table old f in
        rw
          (pg_enqueue-old cfg new_id now tid p.event_id (dumped C p) table old
            (storable-event p.event_id (dumped C p) q) f)
          (inr (old, f, refl, refl), In-any (same_event tid p.event_id) old table m k)

module _ {R Body : Type 0} (C : Casing) (cfg : Settings) (sign : String → Body → String)
    (model_validate : Body → Option WebhookPayload) where
  -- A signed and valid request is one to enqueue.
  lsq_webhook-valid :
      (new_id now : ℕ) (slug : String) (body : Body) (signature : Option String)
      (tenants : List (TenantRow (TenantView R))) (tenant : TenantView R) (p : WebhookPayload)
      (table : List (Job JobPayload))
      → pg_tenant_by_slug slug tenants ≡ some tenant
      → verify (sign tenant.webhook_secret body) signature ≡ some true
      → model_validate body ≡ some p
      → lsq_webhook C cfg sign model_validate new_id now slug body signature tenants table
        ≡ acked table (pg_enqueue cfg new_id now tenant.id p.event_id (dumped C p) table)
  unfolding lsq_webhook
  lsq_webhook-valid new_id now slug body signature tenants tenant p table t v m =
      ap (for_tenant C cfg sign model_validate new_id now body signature table) t
      ∙ ap (if_signed C cfg sign model_validate new_id now tenant body table) v
      ∙ ap (enqueue_payload C cfg sign model_validate new_id now tenant table) m

  -- A signed and valid request of a known tenant, whose texts the jobs table takes, is accepted,
  -- with one job more, or, if its event has a job already, answered as a duplicate. After it the
  -- event is always answered as a duplicate and adds no job, whatever other fields the redelivery
  -- has and whatever the queue went through since.
  pub lsq_webhook-redelivered :
      (new_id now : ℕ) (slug : String) (body : Body) (signature : Option String)
      (tenants : List (TenantRow (TenantView R))) (tenant : TenantView R) (p : WebhookPayload)
      (table : List (Job JobPayload))
      → pg_tenant_by_slug slug tenants ≡ some tenant
      → verify (sign tenant.webhook_secret body) signature ≡ some true
      → model_validate body ≡ some p
      → is_job_storable p.event_id (dumped C p) ≡ true
      → (draw : ℕ → ℕ) (later : List (Job JobPayload)) (new_id' now' : ℕ) (body' : Body)
        (signature' : Option String) (p' : WebhookPayload)
      → Steps cfg draw
          (lsq_webhook C cfg sign model_validate new_id now slug body signature tenants table).1
          later
      → verify (sign tenant.webhook_secret body') signature' ≡ some true
      → model_validate body' ≡ some p'
      → p'.event_id ≡ p.event_id
      → IsDelivered C cfg new_id now tenant.id p table
          (lsq_webhook C cfg sign model_validate new_id now slug body signature tenants table)
        × ((job : Job JobPayload) × (lsq_webhook C cfg sign model_validate new_id' now' slug body'
                signature' tenants later
              ≡ (duplicate job.id, later)))
  lsq_webhook-redelivered new_id now slug body signature tenants tenant p table t v m q draw later
        new_id' now' body' signature' p' steps v' m' same =
      let first = lsq_webhook-valid new_id now slug body signature tenants tenant p table t v m in
      let (delivered, known) = enqueued-IsDelivered C cfg new_id now tenant.id p table q in
      let (job, f) = find-known tenant.id p'.event_id later (
        subst (λ e. has_event tenant.id e later ≡ true) (sym same)
          (Steps-has_event cfg draw tenant.id p.event_id _ later steps (
            subst
              (λ (r : WebhookAnswer × List (Job JobPayload)).
                has_event tenant.id p.event_id r.1 ≡ true)
              (sym first) known))) in
      (
        subst (IsDelivered C cfg new_id now tenant.id p table) (sym first) delivered,
        (
          job,
          lsq_webhook-valid new_id' now' slug body' signature' tenants tenant p' later t v' m'
              ∙ ap (acked later) (
                  pg_enqueue-old cfg new_id' now' tenant.id p'.event_id (dumped C p') later job
                    (ap is_storable same ∙ storable-event p.event_id (dumped C p) q) f),
        ),
      )
