-- ===== src/Db/Reviews.antt =====
-- `get_result` and `record_review` of PostgresRepo in src/prooflens/db/repo.py. `uuid_of` and
-- `uuid` stand for `uuid.UUID`: none is its ValueError.
pub mod Refined
use prooflens.Base.{
  ℕ, String, Bool, List, [], ◌∷◌, ◌++◌, Option, none, some, find, ◌&&◌, ◌==◌, str_eq, if◌then◌else◌,
}
use prooflens.Engine.Number.{Float}
use prooflens.Queue.Jobs.{Job}
use prooflens.Service.Repo.{ResultView, AuditEvent}
use prooflens.Service.Processor.{JobPayload}
use prooflens.Db.Columns.{fits, fits_or_null}
use prooflens.Db.Repo.{ResultRow, view_of}

-- A row of audit_log with the event `review.decision`
pub record AuditRow : Type 0 where
  pub decided : AuditEvent
  pub job_id : Option ℕ

pub record Tables (R : Type 0) : Type 0 where
  pub rows : List (ResultRow R)
  pub audit : List AuditRow

module _ {R : Type 0} where
  abbrev pub is_row : ℕ → String → ResultRow R → Bool
  is_row rid tid r = r.id == rid && str_eq r.tenant_id tid

  -- The row of a tenant, where both ids are valid
  abbrev pub found_row : Option ℕ → Option String → List (ResultRow R) → Option (ResultRow R)
  found_row (some rid) (some tid) table = find (is_row rid tid) table
  found_row none tid table = none
  found_row (some rid) none table = none

  abbrev pub decided_row : String → Option String → String → ℕ → ResultRow R → ResultRow R
  decided_row decision note reviewer now r = record r {
    review_status = some decision;
    review_note = note;
    reviewed_at = some now;
    reviewer = some reviewer;
  }

  -- The update of the one row
  abbrev pub update_row :
      (ResultRow R → Bool) → (ResultRow R → ResultRow R) → List (ResultRow R) → List (ResultRow R)
  update_row p f [] = []
  update_row p f (r ∷ rs) = if p r then f r ∷ rs else r ∷ update_row p f rs

module _ (F : Float) (uuid_of : String → Option ℕ) (uuid : String → Option String)
    (jobs : List (Job JobPayload)) where
  -- `get_result`
  unfoldable pub pg_get_result :
      String → String → List (ResultRow F.Carrier) → Option (ResultView F.Carrier)
  pg_get_result result_id tenant_id table =
      elim (found_row (uuid_of result_id) (uuid tenant_id) table) [
        | none ↦ none
        | some r ↦ some (view_of F jobs r)
      ]

  -- The columns take the review.
  abbrev pub is_review_storable : String → Option String → String → Bool
  is_review_storable decision remark reviewer =
      fits 24 decision && fits_or_null 500 remark && fits 120 reviewer

  -- The view and the tables, where the columns take the review
  abbrev pub stored_review :
      String
      → Option String
      → String
      → ℕ
      → Tables F.Carrier
      → Option (ResultRow F.Carrier)
      → Option (ResultView F.Carrier) × Tables F.Carrier
  stored_review decision remark reviewer now s none = (none, s)
  stored_review decision remark reviewer now s (some r) = (
    some (view_of F jobs (decided_row decision remark reviewer now r)),
    record {
      rows = update_row (is_row r.id r.tenant_id) (decided_row decision remark reviewer now) s.rows;
      audit =
          s.audit
          ++ record {
            decided = record {
              tenant_id = r.tenant_id;
              result_id = r.id;
              decision = decision;
              note = remark;
              reviewer = reviewer;
            };
            job_id = r.job_id;
          }
            ∷ [];
    },
  )

  -- none is the error of the database for a review that does not fit.
  abbrev pub review_row :
      String
      → Option String
      → String
      → ℕ
      → Tables F.Carrier
      → Option (ResultRow F.Carrier)
      → Option (Option (ResultView F.Carrier) × Tables F.Carrier)
  review_row decision remark reviewer now s none =
      some (stored_review decision remark reviewer now s none)
  review_row decision remark reviewer now s (some r) =
      if is_review_storable decision remark reviewer
      then some (stored_review decision remark reviewer now s (some r))
      else none

  -- `record_review`: the view it returns, and the tables after it
  unfoldable pub pg_record_review :
      String
      → String
      → Option String
      → String
      → ℕ
      → String
      → Tables F.Carrier
      → Option (Option (ResultView F.Carrier) × Tables F.Carrier)
  pg_record_review result_id decision note reviewer now tenant_id s =
      review_row decision note reviewer now s
        (found_row (uuid_of result_id) (uuid tenant_id) s.rows)
