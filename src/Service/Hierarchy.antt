-- ===== src/Service/Hierarchy.antt =====
-- src/prooflens/service/hierarchy.py: which row of the organisation an agent had on a day. Days are
-- numbers.
pub mod Effective
use prooflens.Base.{
  ℕ, ◌≤◌, String, Bool, true, false, not, ◌&&◌, ◌||◌, List, [], ◌∷◌, Option, none, some, ltb, leb,
  str_eq, filter, or_else, nonempty, if◌then◌else◌,
}
use prooflens.Service.Ids.{Casing, normalize_id}

pub record HierarchyRow : Type 0 where
  pub agent_id : Option String
  pub agent_name : Option String
  pub sm : Option String
  pub rsm : Option String
  pub srsm : Option String
  pub zonal_head : Option String
  pub branch : Option String
  pub city : Option String
  pub valid_from : ℕ

-- NODE_FIELDS
pub data NodeField : Type 0 where
  sm_field rsm_field srsm_field zonal_head_field branch_field city_field : NodeField

abbrev pub field_of : NodeField → HierarchyRow → Option String
field_of sm_field r = r.sm
field_of rsm_field r = r.rsm
field_of srsm_field r = r.srsm
field_of zonal_head_field r = r.zonal_head
field_of branch_field r = r.branch
field_of city_field r = r.city

-- `==` of two texts that may be missing
abbrev pub same_text : Option String → String → Bool
same_text none t = false
same_text (some s) t = str_eq s t

module _ (C : Casing) where
  -- The row is this agent's.
  unfoldable pub is_agent : String → HierarchyRow → Bool
  is_agent key r = same_text (normalize_id C r.agent_id) key

  abbrev pub better : HierarchyRow → Option HierarchyRow → Option HierarchyRow
  better r none = some r
  better r (some best) = if ltb best.valid_from r.valid_from then some r else some best

  -- One round of the loop of `resolve_node`
  abbrev pub round : String → ℕ → HierarchyRow → Option HierarchyRow → Option HierarchyRow
  round key scored_date r best =
      if not (is_agent key r) || ltb scored_date r.valid_from then best else better r best

  unfoldable pub resolve_from :
      String → ℕ → Option HierarchyRow → List HierarchyRow → Option HierarchyRow
  resolve_from key scored_date best [] = best
  resolve_from key scored_date best (r ∷ rows) =
      resolve_from key scored_date (round key scored_date r best) rows

  abbrev pub resolve_key : List HierarchyRow → Option String → ℕ → Option HierarchyRow
  resolve_key rows none scored_date = none
  resolve_key rows (some key) scored_date = resolve_from key scored_date none rows

  -- `resolve_node`
  unfoldable pub resolve_node : List HierarchyRow → Option String → ℕ → Option HierarchyRow
  resolve_node rows agent_id scored_date = resolve_key rows (normalize_id C agent_id) scored_date

  abbrev pub field_is : NodeField → String → Option HierarchyRow → Bool
  field_is dim node none = false
  field_is dim node (some r) = same_text (field_of dim r) node

  -- `node_match`
  unfoldable pub node_match : List HierarchyRow → Option String → ℕ → NodeField → String → Bool
  node_match rows rep_id scored_date dim node =
      field_is dim node (resolve_node rows rep_id scored_date)

  -- `candidates.sort(key=valid_from, reverse=True)`, which keeps the order of equal days
  abbrev pub insert_newest : HierarchyRow → List HierarchyRow → List HierarchyRow
  insert_newest r [] = r ∷ []
  insert_newest r (q ∷ rows) =
      if leb q.valid_from r.valid_from then r ∷ q ∷ rows else q ∷ insert_newest r rows

  unfoldable pub newest_first : List HierarchyRow → List HierarchyRow
  newest_first [] = []
  newest_first (r ∷ rows) = insert_newest r (newest_first rows)

  unfoldable pub first_name : List HierarchyRow → String → String
  first_name [] key = key
  first_name (r ∷ rows) key =
      if nonempty (or_else r.agent_name "") then or_else r.agent_name "" else first_name rows key

  abbrev pub display_of : List HierarchyRow → Option String → Option String → String
  display_of rows rep_id none = or_else rep_id ""
  display_of rows rep_id (some key) = first_name (newest_first (filter (is_agent key) rows)) key

  -- `agent_display_name`
  unfoldable pub agent_display_name : List HierarchyRow → Option String → String
  agent_display_name rows rep_id = display_of rows rep_id (normalize_id C rep_id)
