-- ===== src/Service/Organisation/Tests.antt =====
-- The organisation of src/prooflens/service/repo.py on a small upload.
use prooflens.Base.{
  nonempty, ℕ, ◌*◌, String, ◌≡◌, refl, ◌≢◌, ap, true, false, List, [], ◌∷◌, Option, none, some, map,
  lookup, string_eq, or_else, count, strip, lstrip, rstrip, is_space_code, str_eq, starts_with,
}
use prooflens.Service.Repo.Samples.{sample}
use prooflens.Service.Ids.{normalize_id}
use prooflens.Service.Hierarchy.{HierarchyRow, NodeField, node_match}
use prooflens.Service.Repo.{ResultView}
use prooflens.Service.Processor.Samples.{plain}
use prooflens.Engine.Number.{decimals}
use prooflens.Service.Organisation.{
  Organisation, kept_row, replace_hierarchy, get_hierarchy_rows, latest_rows, sort_by_id, contains,
  search_hierarchy, counts_from, result_counts_by_rep, recent_reps, hierarchy_status,
}
use prooflens.Service.Organisation.Uploaded.{replace_hierarchy-node_match}
use prooflens.Service.Organisation.Counted.{total, is_hers, is_someones, result_counts_by_rep-count}

abbrev agent_row : String → String → ℕ → HierarchyRow
agent_row id city day = record {
  agent_id = some id;
  agent_name = some "";
  sm = none;
  rsm = none;
  srsm = none;
  zonal_head = some "north";
  branch = none;
  city = some city;
  valid_from = day;
}

abbrev upload : List HierarchyRow
upload = agent_row " B2 " "Pune" 10 ∷ agent_row "A7" "Agra" 10 ∷ agent_row "A7" "Goa" 20 ∷ []

abbrev org : Organisation
org = replace_hierarchy plain "acme" upload "u1" []

-- The latest row of each agent, by agent id
found :
    map {B = Option String} (λ r. r.city) (search_hierarchy (λ s. s) "acme" " " 5 org)
    ≡ some "Goa" ∷ some "Pune" ∷ []
unfolding search_hierarchy replace_hierarchy latest_rows sort_by_id contains starts_with
    normalize_id strip lstrip rstrip is_space_code
found = refl

abbrev result : ℕ → String → String → ResultView ℕ
result id tenant_id rep = record sample {
  id = id;
  created_at = id * 100;
  tenant_id = tenant_id;
  score = 90000;
  processing_ms = 0;
  rep_id = some rep;
}

abbrev results : List (ResultView ℕ)
results =
    result 1 "acme" "A7" ∷ result 2 "acme" "C3" ∷ result 3 "birch" "A7" ∷ result 4 "acme" "A7" ∷ []

matched : (hierarchy_status decimals plain "acme" 1000 org results).matched ≡ 1
unfolding hierarchy_status recent_reps replace_hierarchy normalize_id strip lstrip rstrip
    is_space_code
matched = refl

abbrev acme : String
acme = "acme"

abbrev birch : String
birch = "birch"

tenants_differ : acme ≢ birch
tenants_differ h = absurd (ne (ap (str_eq "acme") h))
  where
    ne : true ≡ false → ⊥
    ne e = cc

replace_hierarchy-node_match_example :
    ((rep : Option String) (day : ℕ) (dim : NodeField) (node : String)
      → node_match plain (get_hierarchy_rows "acme" org) rep day dim node
        ≡ node_match plain upload rep day dim node)
    × (get_hierarchy_rows "birch" org ≡ get_hierarchy_rows "birch" [])
    × ((more : List HierarchyRow) (next_upload : String)
        → get_hierarchy_rows "acme" (replace_hierarchy plain "acme" more next_upload org)
          ≡ map (kept_row plain) more)
replace_hierarchy-node_match_example =
    replace_hierarchy-node_match plain "acme" "u1" upload [] "birch" tenants_differ

counted : lookup "A7" (result_counts_by_rep "acme" (some 100) (some 400) results) ≡ some 1
unfolding result_counts_by_rep counts_from
counted = refl

not_blank : ◌≢◌ {A = String} "A7" ""
not_blank h = absurd (ne (ap nonempty h))
  where
    ne : true ≡ false → ⊥
    ne e = cc

result_counts_by_rep-count_example :
    let counts = result_counts_by_rep "acme" none (some 400) results in
    (or_else (lookup "A7" counts) 0 ≡ count (is_hers "acme" none (some 400) "A7") results)
    × (total counts ≡ count (is_someones "acme" none (some 400)) results)
result_counts_by_rep-count_example =
    result_counts_by_rep-count "acme" none (some 400) results "A7" not_blank
