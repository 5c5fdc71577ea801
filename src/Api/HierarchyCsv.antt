-- ===== src/Api/HierarchyCsv.antt =====
-- The upload of src/prooflens/api/hierarchy_admin.py: `_parse_csv` on the rows that `csv.reader`
-- gives, and `upload_hierarchy`. The decoding and splitting of the file, `str.lower`, the day's
-- date and `date.fromisoformat` on a text that is not YYYY-MM-DD are arguments.
pub mod Parsed
pub mod Accepted
mod Tests
use prooflens.Base.{
  ℕ, suc, String, Bool, true, false, not, ◌&&◌, List, [], ◌∷◌, Option, none, some, ◌⊎◌, inl, inr,
  map, filter, any, length, str_eq, ◌==◌, Dict, lookup, insert, string_eq, or_else, nonempty, strip,
  codes, date_fields, checked_date, if◌then◌else◌,
}
use prooflens.Engine.Number.{Float}
use prooflens.Service.Ids.{Casing, normalize_id}
use prooflens.Service.Hierarchy.{HierarchyRow}
use prooflens.Service.Repo.{ResultView}
use prooflens.Service.Organisation.{
  Organisation, HierarchyStatus, text_or_none, replace_hierarchy, hierarchy_status,
}

-- The details of the 400 answers, with the row of the file, and the 404 for the tenant
pub data UploadError : Type 0 where
  empty_csv no_rows unknown_tenant : UploadError
  unknown_columns : List String → UploadError
  missing_column : String → UploadError
  blank_agent : ℕ → UploadError
  bad_valid_from : ℕ → String → UploadError
  duplicate_agent : ℕ → String → ℕ → UploadError

-- _HEADER
abbrev pub header : List String
header =
    "agent_id" ∷ "agent_name" ∷ "sm" ∷ "rsm" ∷ "srsm" ∷ "zonal_head" ∷ "branch" ∷ "city"
    ∷ "valid_from" ∷ []

abbrev pub is_in : List String → String → Bool
is_in names name = any (λ x. str_eq x name) names

abbrev pub Record : Type 0
Record = Dict String (Option String)

-- A row of `csv.DictReader`: a value that is missing is None, one too many is dropped.
abbrev pub row_dict : List String → List String → Record → Record
row_dict [] values d = d
row_dict (k ∷ ks) [] d = row_dict ks [] (insert k none d)
row_dict (k ∷ ks) (v ∷ vs) d = row_dict ks vs (insert k (some v) d)

abbrev pub stripped : Option String → Option String
stripped none = none
stripped (some v) = some (strip v)

-- `norm`
abbrev pub normalized : (String → String) → Record → Record → Record
normalized lower [] norm = norm
normalized lower ((k, v) ∷ raw) norm =
    normalized lower raw (insert (lower (strip k)) (stripped v) norm)

-- `norm.get(name)`
abbrev pub field : String → Record → Option String
field name norm = or_else (lookup name norm) none

-- `date.fromisoformat`
abbrev pub date_or_other : Option ℕ → Option (ℕ × ℕ × ℕ) → Option ℕ
date_or_other other none = other
date_or_other other (some d) = checked_date d

abbrev pub fromisoformat : (String → Option ℕ) → String → Option ℕ
fromisoformat other s = date_or_other (other s) (date_fields (codes s))

abbrev pub Key : Type 0
Key = String × ℕ

-- `key in seen`
abbrev pub is_seen : Key → List Key → Bool
is_seen k seen = any (λ s. str_eq s.0 k.0 && s.1 == k.1) seen

abbrev pub row_of_record : String → ℕ → Record → HierarchyRow
row_of_record agent day norm = record {
  agent_id = some agent;
  agent_name = text_or_none (field "agent_name" norm);
  sm = text_or_none (field "sm" norm);
  rsm = text_or_none (field "rsm" norm);
  srsm = text_or_none (field "srsm" norm);
  zonal_head = text_or_none (field "zonal_head" norm);
  branch = text_or_none (field "branch" norm);
  city = text_or_none (field "city" norm);
  valid_from = day;
}

abbrev pub with_day :
    ℕ → List Key → Record → String → String → Option ℕ → UploadError ⊎ HierarchyRow
with_day i seen norm agent vf_raw none = inl (bad_valid_from i vf_raw)
with_day i seen norm agent vf_raw (some vf) =
    if is_seen (agent, vf) seen
    then inl (duplicate_agent i agent vf)
    else inr (row_of_record agent vf norm)

abbrev pub key_of_row : HierarchyRow → Key
key_of_row r = (or_else r.agent_id "", r.valid_from)

abbrev pub add_row :
    HierarchyRow → UploadError ⊎ List HierarchyRow → UploadError ⊎ List HierarchyRow
add_row r (inl e) = inl e
add_row r (inr rows) = inr (r ∷ rows)

abbrev pub and_then :
    (HierarchyRow → UploadError ⊎ List HierarchyRow)
    → UploadError ⊎ HierarchyRow
    → UploadError ⊎ List HierarchyRow
and_then rest (inl e) = inl e
and_then rest (inr r) = add_row r (rest r)

abbrev pub some_rows : UploadError ⊎ List HierarchyRow → UploadError ⊎ List HierarchyRow
some_rows (inr []) = inl no_rows
some_rows parsed = parsed

abbrev pub is_blank : List String → Bool
is_blank [] = true
is_blank (v ∷ vs) = false

abbrev pub unknown_names : List String → List String
unknown_names headers = filter (λ h. not (is_in header h)) headers

-- The rows that are not blank, as `norm`
abbrev pub records : (String → String) → List String → List (List String) → List Record
records lower fieldnames rows =
    map (λ values. normalized lower (row_dict fieldnames values []) [])
      (filter (λ values. not (is_blank values)) rows)

module _ (C : Casing) (lower : String → String) (other : String → Option ℕ) (today : ℕ) where
  -- The day that a row gives, or today
  abbrev pub day_of_row : String → Option ℕ
  day_of_row vf_raw = if nonempty vf_raw then fromisoformat other vf_raw else some today

  abbrev pub with_agent : ℕ → List Key → Record → Option String → UploadError ⊎ HierarchyRow
  with_agent i seen norm none = inl (blank_agent i)
  with_agent i seen norm (some agent) =
      let vf_raw = or_else (field "valid_from" norm) "" in
      with_day i seen norm agent vf_raw (day_of_row vf_raw)

  -- One row of the file
  unfoldable pub parse_row : ℕ → List Key → Record → UploadError ⊎ HierarchyRow
  parse_row i seen norm = with_agent i seen norm (normalize_id C (field "agent_id" norm))

  -- The loop over the rows, from the row `i` of the file on
  unfoldable pub parse_rows : ℕ → List Key → List Record → UploadError ⊎ List HierarchyRow
  parse_rows i seen [] = inr []
  parse_rows i seen (norm ∷ raws) =
      and_then (λ r. parse_rows (suc i) (key_of_row r ∷ seen) raws) (parse_row i seen norm)

  abbrev pub if_known : List String → List Record → List String → UploadError ⊎ List HierarchyRow
  if_known headers raws (h ∷ unknown) = inl (unknown_columns (h ∷ unknown))
  if_known headers raws [] =
      if not (is_in headers "agent_id")
      then inl (missing_column "agent_id")
      else if not (is_in headers "valid_from")
      then inl (missing_column "valid_from")
      else some_rows (parse_rows 2 [] raws)

  -- `_parse_csv` on the lines of the file
  unfoldable pub parse_csv : List (List String) → UploadError ⊎ List HierarchyRow
  parse_csv [] = inl empty_csv
  parse_csv (fieldnames ∷ rows) =
      let headers = map (λ h. lower (strip h)) fieldnames in
      if_known headers (records lower fieldnames rows) (unknown_names headers)

  module _ (F : Float) where
    -- What an upload answers, and the organisation after it
    abbrev pub Uploaded : Type 0
    Uploaded = (ℕ × HierarchyStatus F.Carrier) × Organisation

    abbrev pub store_upload :
        String
        → ℕ
        → Organisation
        → List (ResultView F.Carrier)
        → Option String
        → UploadError ⊎ List HierarchyRow
        → UploadError ⊎ Uploaded
    store_upload upload_id now org results tid (inl e) = inl e
    store_upload upload_id now org results none (inr rows) = inl unknown_tenant
    store_upload upload_id now org results (some tid) (inr rows) =
        let org' = replace_hierarchy C tid rows upload_id org in
        inr ((length rows, hierarchy_status F C tid now org' results), org')

    -- `upload_hierarchy`, where `tid` is the id of the tenant DEFAULT_TENANT
    unfoldable pub upload_hierarchy :
        String
        → ℕ
        → Organisation
        → List (ResultView F.Carrier)
        → Option String
        → List (List String)
        → UploadError ⊎ Uploaded
    upload_hierarchy upload_id now org results tid lines =
        store_upload upload_id now org results tid (parse_csv lines)
