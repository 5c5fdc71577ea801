-- ===== src/Api/Analytics/Groups.antt =====
-- The groups of src/prooflens/api/analytics.py: by a node of the organisation, or by agent. The
-- cache of display names, which only saves the scan, is left out; the print and comparison of texts
-- is by code points.
use prooflens.Base.{
  ℕ, ◌==◌, String, Bool, true, false, ◌&&◌, ◌||◌, List, [], ◌∷◌, ◌++◌, Option, none, some, map,
  length, ltb, codes, or_else, nonempty, Dict, string_eq, str_eq, pos, if◌then◌else◌,
}
use prooflens.Engine.Number.{Float, ratio, zero_float}
use prooflens.Service.Ids.{Casing, normalize_id}
use prooflens.Service.Hierarchy.{
  HierarchyRow, NodeField, field_of, resolve_node, agent_display_name,
}
use prooflens.Service.Repo.{ResultView}
use prooflens.Api.Analytics.{GroupField, node_field, agent, scored_date, Tally, tally}

abbrev pub value_or_unmapped : Option String → String
value_or_unmapped value = if nonempty (or_else value "") then or_else value "" else "Unmapped"

abbrev pub label_of_node : NodeField → Option HierarchyRow → String
label_of_node field none = "Unmapped"
label_of_node field (some node) = value_or_unmapped (field_of field node)

-- An entry of the dict `entries`, without its key
pub record Entry (R : Type 0) : Type 0 where
  pub label : String
  pub agent_id : Option String
  pub items : List (ResultView R)

-- Key, label and agent id of a result's group
pub record GroupKey : Type 0 where
  pub key : String
  pub label : String
  pub agent_id : Option String

abbrev pub codes_lt : List ℕ → List ℕ → Bool
codes_lt [] [] = false
codes_lt [] (y ∷ ys) = true
codes_lt (x ∷ xs) [] = false
codes_lt (x ∷ xs) (y ∷ ys) = ltb x y || (x == y && codes_lt xs ys)

-- `s < t` of two texts, and of two pairs (label, key)
abbrev pub text_lt : String → String → Bool
text_lt s t = codes_lt (codes s) (codes t)

abbrev pub pair_lt : String → String → String → String → Bool
pair_lt label key label' key' = text_lt label label' || (str_eq label label' && text_lt key key')

module _ (C : Casing) (rows : List HierarchyRow) where
  -- `_node_label`
  unfoldable pub node_label : {R : Type 0} → NodeField → ResultView R → String
  node_label field r = label_of_node field (resolve_node C rows r.rep_id (scored_date r))

  abbrev pub agent_key : Option String → GroupKey
  agent_key none = record { key = "Unmapped"; label = "Unmapped"; agent_id = none }
  agent_key (some rep) = record {
    key = rep;
    label = agent_display_name C rows (some rep);
    agent_id = some rep;
  }

  abbrev pub key_of : {R : Type 0} → GroupField → ResultView R → GroupKey
  key_of agent r = agent_key (normalize_id C r.rep_id)
  key_of (node_field field) r = record {
    key = node_label field r;
    label = node_label field r;
    agent_id = none;
  }

abbrev pub Entries : Type 0 → Type 0
Entries R = Dict String (Entry R)

module _ {R : Type 0} where
  abbrev pub with_item : ResultView R → Entry R → Entry R
  with_item r entry = record entry { items = entry.items ++ r ∷ [] }

  -- The body of the loop: the result joins the entry of its key, or opens one.
  abbrev pub join : GroupKey → ResultView R → Entries R → Entries R
  join k r [] = (k.key, record { label = k.label; agent_id = k.agent_id; items = r ∷ [] }) ∷ []
  join k r ((j, entry) ∷ entries) =
      if str_eq j k.key then (j, with_item r entry) ∷ entries else (j, entry) ∷ join k r entries

  unfoldable pub join_all : (ResultView R → GroupKey) → List (ResultView R) → Entries R → Entries R
  join_all key [] entries = entries
  join_all key (r ∷ items) entries = join_all key items (join (key r) r entries)

  -- `sorted(entries, key=lambda k: (entries[k]["label"], k))`
  abbrev pub insert_entry : String × Entry R → Entries R → Entries R
  insert_entry e [] = e ∷ []
  insert_entry (k, e) ((j, d) ∷ entries) =
      if pair_lt d.label j e.label k
      then (j, d) ∷ insert_entry (k, e) entries
      else (k, e) ∷ (j, d) ∷ entries

  unfoldable pub sort_entries : Entries R → Entries R
  sort_entries [] = []
  sort_entries (e ∷ entries) = insert_entry e (sort_entries entries)

pub record GroupRow (R : Type 0) : Type 0 where
  pub node : String
  pub counts : Tally R
  pub suspect_rate : R
  pub share : R
  pub agent_id : Option String

module _ (F : Float) where
  open F use {Carrier, of_int, round3}

  -- `round(n / total, 3) if total else 0.0`
  abbrev pub rate : ℕ → ℕ → Carrier
  rate n total = if total == 0 then zero_float F else round3 (ratio F (of_int (pos n)) total)

  abbrev pub group_row : ℕ → String × Entry Carrier → GroupRow Carrier
  group_row total_all (k, entry) = record {
    node = entry.label;
    counts = tally F entry.items;
    suspect_rate = rate (tally F entry.items).suspect (tally F entry.items).total;
    share = rate (tally F entry.items).total total_all;
    agent_id = entry.agent_id;
  }

  -- `_groups`
  unfoldable pub groups :
      Casing → List (ResultView Carrier) → List HierarchyRow → GroupField → List (GroupRow Carrier)
  groups C items rows field =
      map (group_row (length items)) (sort_entries (join_all (key_of C rows field) items []))
