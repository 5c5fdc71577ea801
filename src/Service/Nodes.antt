-- ===== src/Service/Nodes.antt =====
-- The results of one node of the organisation: `list_results` with `dim` and `node`, of
-- InMemoryRepo in src/prooflens/service/repo.py and, for the choice of the field, of
-- src/prooflens/db/repo.py.
use prooflens.Base.{
  ℕ, String, Bool, List, [], Option, none, some, filter, length, take, drop, reverse, or_else,
  nonempty, ◌&&◌, date_of, if◌then◌else◌,
}
use prooflens.Service.Ids.{Casing}
use prooflens.Service.Hierarchy.{HierarchyRow, NodeField, node_match}
use prooflens.Service.Repo.{ResultView, ResultQuery, Results, matches}
use prooflens.Api.Analytics.{GroupField, node_field, agent, group_by_field}

-- What `dim` and `node` ask for: no filter, no result at all, or a field with its value
pub data NodeFilter : Type 0 where
  every_node no_result : NodeFilter
  at_node : NodeField → String → NodeFilter

-- `if field is None or field == "agent"`
abbrev pub field_filter : Option GroupField → String → NodeFilter
field_filter none node = no_result
field_filter (some agent) node = no_result
field_filter (some (node_field field)) node = at_node field node

-- `if dim and node`
unfoldable pub node_filter : Option String → Option String → NodeFilter
node_filter dim node =
    if nonempty (or_else dim "") && nonempty (or_else node "")
    then field_filter (group_by_field (or_else dim "")) (or_else node "")
    else every_node

module _ {R : Type 0} where
  -- `rows[offset : offset + limit], len(rows)`
  abbrev pub page_of : ResultQuery → List (ResultView R) → List (ResultView R) × ℕ
  page_of q rows = (take q.limit (drop q.offset rows), length rows)

module _ {R : Type 0} (C : Casing) where
  abbrev pub is_at : List HierarchyRow → NodeField → String → ResultView R → Bool
  is_at hier field node r = node_match C hier r.rep_id (date_of r.created_at) field node

  -- `list_results`: the page and the total, where `hier` are the tenant's rows
  unfoldable pub list_node_results :
      String → ResultQuery → NodeFilter → List HierarchyRow → Results R → List (ResultView R) × ℕ
  list_node_results tenant_id q every_node hier s =
      page_of q (reverse (filter (matches C tenant_id q) s.results))
  list_node_results tenant_id q no_result hier s = ([], 0)
  list_node_results tenant_id q (at_node field node) hier s =
      page_of q
        (reverse (filter (is_at hier field node) (filter (matches C tenant_id q) s.results)))
