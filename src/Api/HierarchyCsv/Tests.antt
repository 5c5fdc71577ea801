-- ===== src/Api/HierarchyCsv/Tests.antt =====
-- Uploads of src/prooflens/api/hierarchy_admin.py.
use prooflens.Base.{
  ℕ, String, ◌≡◌, refl, ◌≢◌, List, [], ◌∷◌, Option, none, some, ◌⊎◌, inl, inr, length, All,
  IsDistinctOn, strip, lstrip, rstrip, is_space_code, checked_date,
}
use prooflens.Engine.Number.{decimals}
use prooflens.Service.Ids.{normalize_id}
use prooflens.Service.Hierarchy.{HierarchyRow, resolve_node}
use prooflens.Service.Organisation.{Organisation, get_hierarchy_rows, hierarchy_status}
use prooflens.Service.Processor.Samples.{plain}
use prooflens.Api.HierarchyCsv.{
  UploadError, bad_valid_from, duplicate_agent, no_rows, key_of_row, parse_row, parse_rows,
  parse_csv, upload_hierarchy,
}
use prooflens.Api.HierarchyCsv.Parsed.{data_records}
use prooflens.Api.HierarchyCsv.Accepted.{upload_hierarchy-in_force}

abbrev parsed : List (List String) → UploadError ⊎ List HierarchyRow
parsed lines = parse_csv plain (λ s. s) (λ s. none) 700000 lines

abbrev columns : List String
columns = " agent_id" ∷ "city" ∷ "valid_from" ∷ []

-- A blank line is no row; a missing day is today.
abbrev good : List (List String)
good =
    columns
    ∷ ("a7 " ∷ "Agra" ∷ "2026-01-01" ∷ [])
    ∷ []
    ∷ ("a7" ∷ "" ∷ [])
    ∷ ("b2" ∷ "Goa" ∷ "" ∷ "x" ∷ [])
    ∷ []

abbrev row : String → Option String → ℕ → HierarchyRow
row agent city day = record {
  agent_id = some agent;
  agent_name = none;
  sm = none;
  rsm = none;
  srsm = none;
  zonal_head = none;
  branch = none;
  city = city;
  valid_from = day;
}

abbrev rows : List HierarchyRow
rows = row "a7" (some "Agra") 739617 ∷ row "a7" none 700000 ∷ row "b2" (some "Goa") 700000 ∷ []

good_rows : parsed good ≡ inr rows
unfolding parse_csv parse_rows parse_row normalize_id strip lstrip rstrip is_space_code checked_date
good_rows = refl

repeated :
    parsed (columns ∷ ("a7" ∷ "" ∷ "2026-01-01" ∷ []) ∷ ("a7 " ∷ "" ∷ "2026-01-01" ∷ []) ∷ [])
    ≡ inl (duplicate_agent 3 "a7" 739617)
unfolding parse_csv parse_rows parse_row normalize_id strip lstrip rstrip is_space_code checked_date
repeated = refl

no_such_day :
    parsed (columns ∷ ("a7" ∷ "" ∷ "2026-02-30" ∷ []) ∷ []) ≡ inl (bad_valid_from 2 "2026-02-30")
unfolding parse_csv parse_rows parse_row normalize_id strip lstrip rstrip is_space_code checked_date
no_such_day = refl

only_header : parsed (columns ∷ [] ∷ []) ≡ inl no_rows
unfolding parse_csv parse_rows strip lstrip rstrip is_space_code
only_header = refl

upload_hierarchy-in_force_example :
    (org' : Organisation) × (upload_hierarchy plain
        (λ s. s)
        (λ s. none)
        700000
        decimals
        "u1"
        5
        []
        []
        (some "acme")
        good
      ≡ inr ((length rows, hierarchy_status decimals plain "acme" 5 org' []), org'))
    × (rows ≢ [])
    × (length rows ≡ length (data_records (λ s. s) good))
    × IsDistinctOn key_of_row rows
    × (get_hierarchy_rows "acme" org' ≡ rows)
    × All
        (λ r. resolve_node plain (get_hierarchy_rows "acme" org') r.agent_id r.valid_from ≡ some r)
        rows
upload_hierarchy-in_force_example =
    upload_hierarchy-in_force plain decimals (λ s. s) (λ s. none) 700000 good rows "acme" "u1" 5 []
      [] good_rows
