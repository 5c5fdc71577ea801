-- ===== src/Db/Repo/Recorded.antt =====
-- `record_result` of src/prooflens/db/repo.py beside that of InMemoryRepo in
-- src/prooflens/service/repo.py.
use mathlib.Core.List.{map-append}
use prooflens.Base.{
  ℕ, ◌≤◌, String, ◌≡◌, refl, ap, ◌∙◌, List, [], ◌∷◌, ◌++◌, Option, none, some, pos, All, true, Bool,
  if◌then◌else◌,
}
use prooflens.Engine.Number.{Float}
use prooflens.Engine.Types.{Verdict, CheckOutcome}
use prooflens.Queue.Jobs.{Job}
use prooflens.Service.Ids.{Casing, normalize_id, normalize_id_idem}
use prooflens.Service.Repo.{AuditEvent, source_of, record_result}
use prooflens.Service.Processor.{JobPayload}
use prooflens.Api.Scoring.{processing_ms}
use prooflens.Db.Repo.{
  ResultRow, job_of, promoted, to_view, view_of, new_row, is_row_storable, pg_record_result,
}
use prooflens.Db.Repo.Refined.{IsChronological, IsCurrent, view_list}

source_of_idem :
    (source : Option String) (job_id : Option ℕ)
    → source_of (some (source_of source job_id)) job_id ≡ source_of source job_id
source_of_idem none none = refl
source_of_idem none (some j) = refl
source_of_idem (some String.[]) none = refl
source_of_idem (some String.[]) (some j) = refl
source_of_idem (some (String.◌∷◌ c s)) job_id = refl

module _ {R : Type 0} where
  All-last :
      (P : ResultRow R → Type 0) (rows : List (ResultRow R)) (r : ResultRow R)
      → All P rows
      → P r
      → All P (rows ++ r ∷ [])
  All-last P [] r h k = (k, tt)
  All-last P (x ∷ rows) r h k = (h.0, All-last P rows r h.1 k)

  last-IsChronological :
      (rows : List (ResultRow R)) (r : ResultRow R)
      → IsChronological rows
      → All (λ x. x.created_at ≤ r.created_at) rows
      → IsChronological (rows ++ r ∷ [])
  last-IsChronological [] r h k = (tt, tt)
  last-IsChronological (x ∷ rows) r h k = (
    All-last (λ q. x.created_at ≤ q.created_at) rows r h.0 k.0,
    last-IsChronological rows r h.1 k.1,
  )

module _ (F : Float) where
  -- The verdict as Postgres keeps it: its score is a whole number.
  abbrev pub rounded : Verdict F.Carrier → Verdict F.Carrier
  rounded v = record v { score = F.of_int (pos (F.to_int v.score)) }

module _ (F : Float) (C : Casing) (jobs : List (Job JobPayload)) where
  -- For a row that the columns take, the views after `record_result` are those of the in-memory
  -- repository after its `record_result` on the verdict with its score rounded, and the table still
  -- holds what listing it relies on: every representative normalized, and the rows in the order of
  -- their times. The row is not older than the table, and a representative or an opportunity that
  -- is missing is missing in its job, too.
  pub pg_record_result-refines :
      (takes_json : List (CheckOutcome F.Carrier) → Bool) (rid now : ℕ) (tenant_id : String)
      (job_id : Option ℕ) (v : Verdict F.Carrier)
      (opportunity_id rep_id source summary : Option String) (table : List (ResultRow F.Carrier))
      (log : List AuditEvent)
      → is_row_storable F takes_json
          (new_row F C rid now tenant_id job_id v opportunity_id rep_id source summary)
        ≡ true
      → promoted (λ p. p.rep_id) (normalize_id C rep_id) (job_of jobs job_id)
        ≡ normalize_id C rep_id
      → promoted (λ p. p.opportunity_id) opportunity_id (job_of jobs job_id) ≡ opportunity_id
      → All (IsCurrent F C jobs) table
      → IsChronological table
      → All (λ r. r.created_at ≤ now) table
      → (table' : List (ResultRow F.Carrier)) × (pg_record_result F takes_json C rid now tenant_id
            job_id v opportunity_id rep_id source summary table
          ≡ some table')
        × (view_list F C jobs table'
            ≡ (record_result C rid now
                (processing_ms F v)
                tenant_id
                job_id
                (rounded F v)
                opportunity_id
                rep_id
                source
                summary
                (record { results = view_list F C jobs table; audit_log = log })).results)
        × All (IsCurrent F C jobs) table'
        × IsChronological table'
  unfolding pg_record_result record_result to_view processing_ms
  pg_record_result-refines takes_json rid now tenant_id job_id v opportunity_id rep_id source
        summary table log fit rep opp cur sorted newest =
      let r = new_row F C rid now tenant_id job_id v opportunity_id rep_id source summary in
      (
        table ++ r ∷ [],
        ap (λ b. if b then some (table ++ r ∷ []) else none) fit,
        map-append (view_of F jobs) table (r ∷ [])
            ∙ ap (λ l. view_list F C jobs table ++ l) (rw (rep, opp, source_of_idem source job_id)),
        All-last (IsCurrent F C jobs) table r cur (rep, normalize_id_idem C rep_id),
        last-IsChronological table r sorted newest,
      )
