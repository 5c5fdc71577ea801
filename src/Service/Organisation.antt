-- ===== src/Service/Organisation.antt =====
-- The organisation and its statistics in InMemoryRepo of src/prooflens/service/repo.py. `str.lower`
-- and the clock are arguments; times are microseconds, days are ordinals.
pub mod Uploaded
pub mod Counted
mod Tests
use prooflens.Base.{
  ℕ, ◌+◌, ◌*◌, ◌-◌, String, Bool, true, false, not, ◌&&◌, ◌||◌, List, [], ◌∷◌, ◌++◌, Option, none,
  some, map, filter, count, any, length, take, ltb, leb, str_eq, Dict, lookup, insert, string_eq,
  or_else, nonempty, strip, starts_with, day_length, isoformat, if◌then◌else◌,
}
use prooflens.Engine.Number.{Float}
use prooflens.Service.Ids.{Casing, normalize_id}
use prooflens.Service.Hierarchy.{HierarchyRow, same_text}
use prooflens.Service.Repo.{ResultView, from_start, before_end}
use prooflens.Api.Analytics.Groups.{text_lt, rate}

-- A row of an upload as it is kept
pub record StoredRow : Type 0 where
  pub row : HierarchyRow
  pub upload_id : String

-- `_hierarchy`: the rows of each tenant
abbrev pub Organisation : Type 0
Organisation = Dict String (List StoredRow)

-- `value or None`
abbrev pub text_or_none : Option String → Option String
text_or_none none = none
text_or_none (some s) = if nonempty s then some s else none

abbrev pub stored_rows : String → Organisation → List StoredRow
stored_rows tenant_id org = or_else (lookup tenant_id org) []

module _ (C : Casing) where
  abbrev pub kept_row : HierarchyRow → HierarchyRow
  kept_row r = record r {
    agent_id = normalize_id C r.agent_id;
    agent_name = text_or_none r.agent_name;
  }

  abbrev pub stored_as : String → HierarchyRow → StoredRow
  stored_as upload_id r = record { row = kept_row r; upload_id = upload_id }

  -- `replace_hierarchy`
  unfoldable pub replace_hierarchy :
      String → List HierarchyRow → String → Organisation → Organisation
  replace_hierarchy tenant_id rows upload_id org =
      insert tenant_id (map (stored_as upload_id) rows) org

-- `get_hierarchy_rows`
unfoldable pub get_hierarchy_rows : String → Organisation → List HierarchyRow
get_hierarchy_rows tenant_id org = map (λ s. s.row) (stored_rows tenant_id org)

-- `needle in text`
unfoldable pub contains : String → String → Bool
contains needle String.[] = starts_with String.[] needle
contains needle (String.◌∷◌ c text) = starts_with (String.◌∷◌ c text) needle || contains needle text

-- The latest row of each agent; of two rows of one day the first stays.
abbrev pub is_later : StoredRow → Option StoredRow → Bool
is_later r none = true
is_later r (some cur) = ltb cur.row.valid_from r.row.valid_from

abbrev pub with_latest : Option String → StoredRow → Dict String StoredRow → Dict String StoredRow
with_latest none r latest = latest
with_latest (some aid) r latest =
    if is_later r (lookup aid latest) then insert aid r latest else latest

unfoldable pub latest_rows : List StoredRow → Dict String StoredRow → Dict String StoredRow
latest_rows [] latest = latest
latest_rows (r ∷ rows) latest = latest_rows rows (with_latest r.row.agent_id r latest)

-- `matches.sort(key=lambda r: r["agent_id"])`
abbrev pub id_of : StoredRow → String
id_of r = or_else r.row.agent_id ""

abbrev pub insert_by_id : StoredRow → List StoredRow → List StoredRow
insert_by_id r [] = r ∷ []
insert_by_id r (q ∷ rows) =
    if text_lt (id_of q) (id_of r) then q ∷ insert_by_id r rows else r ∷ q ∷ rows

unfoldable pub sort_by_id : List StoredRow → List StoredRow
sort_by_id [] = []
sort_by_id (r ∷ rows) = insert_by_id r (sort_by_id rows)

abbrev pub is_named : (String → String) → String → StoredRow → Bool
is_named lower needle r =
    contains needle (lower (id_of r)) || contains needle (lower (or_else r.row.agent_name ""))

-- `search_hierarchy`
unfoldable pub search_hierarchy :
    (String → String) → String → String → ℕ → Organisation → List HierarchyRow
search_hierarchy lower tenant_id q limit org =
    let latest = map (λ e. e.1) (latest_rows (stored_rows tenant_id org) []) in
    let found = filter (is_named lower (lower (strip q))) latest in
    map (λ s. s.row) (take limit (sort_by_id found))

abbrev pub one_more : String → Dict String ℕ → Dict String ℕ
one_more rep counts = insert rep (or_else (lookup rep counts) 0 + 1) counts

module _ {R : Type 0} where
  -- The result is the tenant's, has a representative and lies in the range.
  abbrev pub is_counted : String → Option ℕ → Option ℕ → ResultView R → Bool
  is_counted tenant_id start end r =
      str_eq r.tenant_id tenant_id
      && nonempty (or_else r.rep_id "")
      && from_start start r.created_at
      && before_end end r.created_at

  unfoldable pub counts_from :
      (ResultView R → Bool) → Dict String ℕ → List (ResultView R) → Dict String ℕ
  counts_from p counts [] = counts
  counts_from p counts (r ∷ rs) =
      counts_from p (if p r then one_more (or_else r.rep_id "") counts else counts) rs

  -- `result_counts_by_rep`
  unfoldable pub result_counts_by_rep :
      String → Option ℕ → Option ℕ → List (ResultView R) → Dict String ℕ
  result_counts_by_rep tenant_id start end results =
      counts_from (is_counted tenant_id start end) [] results

-- `set.add`
abbrev pub add_new : Option String → List String → List String
add_new none ids = ids
add_new (some id) ids = if any (λ x. str_eq x id) ids then ids else ids ++ id ∷ []

module _ {R : Type 0} (C : Casing) where
  -- The normalized representatives of the tenant's results that are at most 90 days old
  abbrev pub is_recent : String → ℕ → ResultView R → Bool
  is_recent tenant_id now r =
      str_eq r.tenant_id tenant_id
      && nonempty (or_else r.rep_id "")
      && leb now (r.created_at + 90 * day_length)

  unfoldable pub recent_reps : String → ℕ → List String → List (ResultView R) → List String
  recent_reps tenant_id now ids [] = ids
  recent_reps tenant_id now ids (r ∷ rs) =
      recent_reps tenant_id now
        (if is_recent tenant_id now r then add_new (normalize_id C r.rep_id) ids else ids) rs

abbrev pub same_agent : Casing → String → StoredRow → Bool
same_agent C rep s = same_text (normalize_id C s.row.agent_id) rep

abbrev pub latest_day : Option ℕ → List StoredRow → Option ℕ
latest_day best [] = best
latest_day none (s ∷ rows) = latest_day (some s.row.valid_from) rows
latest_day (some d) (s ∷ rows) =
    latest_day (some (if ltb d s.row.valid_from then s.row.valid_from else d)) rows

abbrev pub iso_day : Option ℕ → Option String
iso_day none = none
iso_day (some d) = some (isoformat d)

abbrev pub first_upload : List StoredRow → Option String
first_upload [] = none
first_upload (s ∷ rows) = some s.upload_id

pub record HierarchyStatus (R : Type 0) : Type 0 where
  pub upload_id : Option String
  pub valid_from : Option String
  pub row_count : ℕ
  pub match_rate : R
  pub matched : ℕ
  pub unmapped : ℕ

module _ (F : Float) (C : Casing) where
  abbrev pub status_of : List String → List StoredRow → HierarchyStatus F.Carrier
  status_of rep_ids rows =
      let matched = count (λ rep. any (same_agent C rep) rows) rep_ids in
      let unmapped = length rep_ids - matched in
      record {
        upload_id = first_upload rows;
        valid_from = iso_day (latest_day none rows);
        row_count = length rows;
        match_rate = rate F matched (matched + unmapped);
        matched = matched;
        unmapped = unmapped;
      }

  -- `hierarchy_status`
  unfoldable pub hierarchy_status :
      String → ℕ → Organisation → List (ResultView F.Carrier) → HierarchyStatus F.Carrier
  hierarchy_status tenant_id now org results =
      status_of (recent_reps C tenant_id now [] results) (stored_rows tenant_id org)
