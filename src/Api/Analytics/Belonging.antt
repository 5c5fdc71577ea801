-- ===== src/Api/Analytics/Belonging.antt =====
-- Which results belong to a row of `_groups` of src/prooflens/api/analytics.py, and its name.
use prooflens.Base.{
  String, ◌≡◌, refl, sym, ap, ◌∙◌, ◌≢◌, Bool, true, false, List, Option, none, some, nonempty,
  strip, lstrip, rstrip, is_space_code, string_eq, str_eq, eq_iff, arith, if◌then◌else◌,
}
use prooflens.Service.Ids.{Casing, normalize_id, normalize_id_idem}
use prooflens.Service.Hierarchy.{
  HierarchyRow, NodeField, field_of, same_text, resolve_node, field_is, node_match,
  agent_display_name,
}
use prooflens.Service.Repo.{ResultView}
use prooflens.Api.Analytics.{GroupField, agent, node_field, scored_date}
use prooflens.Api.Analytics.Groups.{
  value_or_unmapped, label_of_node, node_label, agent_key, GroupRow,
}

module _ (C : Casing) where
  abbrev pub IsCased : Type 0
  IsCased = ◌≢◌ {A = String} (C.upper "Unmapped") "Unmapped"

  pub normalize_id-ne-unmapped :
      IsCased → (o : Option String) (rep : String) → normalize_id C o ≡ some rep → rep ≢ "Unmapped"
  unfolding normalize_id strip lstrip rstrip is_space_code
  normalize_id-ne-unmapped cased o rep e same = cased (
      some_eq
        (sym (ap (normalize_id C) (e ∙ ap some same)) ∙ normalize_id_idem C o ∙ e ∙ ap some same))
    where
      some_eq : {a b : String} → ◌≡◌ {A = Option String} (some a) (some b) → a ≡ b
      some_eq h = cc

  module _ (rows : List HierarchyRow) where
    abbrev pub same_agent_id : Option String → Option String → Bool
    same_agent_id none none = true
    same_agent_id none (some b) = false
    same_agent_id (some a) none = false
    same_agent_id (some a) (some b) = str_eq a b

    -- The result belongs to the row: its normalized id is the row's agent id, or its agent had on
    -- its day a row of the organisation with the row's label in the field; "Unmapped" takes the
    -- results with no such label.
    abbrev pub is_in_group : {R : Type 0} → GroupField → GroupRow R → ResultView R → Bool
    is_in_group agent g r = same_agent_id (normalize_id C r.rep_id) g.agent_id
    is_in_group (node_field f) g r =
        if str_eq g.node "Unmapped"
        then str_eq (node_label C rows f r) "Unmapped"
        else node_match C rows r.rep_id (scored_date r) f g.node

    abbrev pub name_of : Option String → String
    name_of none = "Unmapped"
    name_of (some id) = agent_display_name C rows (some id)

    -- The label of the row: the display name of its agent id, or a node, which has no agent id.
    abbrev pub HasName : {R : Type 0} → GroupField → GroupRow R → Type 0
    HasName agent g = g.node ≡ name_of g.agent_id
    HasName (node_field f) g = g.agent_id ≡ none

    -- What tells two rows apart: the agent id, or the label.
    abbrev pub identity : {R : Type 0} → GroupField → GroupRow R → Option String
    identity agent g = g.agent_id
    identity (node_field f) g = some g.node

    pub agent_same :
        (o p : Option String)
        → ((rep : String) → o ≡ some rep → rep ≢ "Unmapped")
        → ((rep : String) → p ≡ some rep → rep ≢ "Unmapped")
        → str_eq (agent_key C rows o).key (agent_key C rows p).key
          ≡ same_agent_id o (agent_key C rows p).agent_id
    agent_same none none ho hp = refl
    agent_same none (some q) ho hp = ground (arith, eq_iff "Unmapped" q, hp q refl)
    agent_same (some rep) none ho hp = ground (arith, eq_iff rep "Unmapped", ho rep refl)
    agent_same (some rep) (some q) ho hp = refl

    empty_ne : (k : String) → nonempty k ≡ true → ◌≢◌ {A = String} "" k
    empty_ne k full e = cc_false (ap nonempty e ∙ full)
      where
        cc_false : false ≡ true → ⊥
        cc_false h = cc

    value_same :
        (v : Option String) (k : String)
        → nonempty k ≡ true
        → str_eq (value_or_unmapped v) k
          ≡ (if str_eq k "Unmapped" then str_eq (value_or_unmapped v) "Unmapped" else same_text v k)
    value_same none k full = ground (arith, eq_iff k "Unmapped", eq_iff "Unmapped" k)
    value_same (some String.[]) k full =
        ground (arith, eq_iff k "Unmapped", eq_iff "Unmapped" k, eq_iff "" k, empty_ne k full)
    value_same (some (String.◌∷◌ c s)) k full = ground (arith, eq_iff k "Unmapped")

    label-nonempty : (f : NodeField) (o : Option HierarchyRow) → nonempty (label_of_node f o) ≡ true
    label-nonempty f none = refl
    label-nonempty f (some row) = value-nonempty (field_of f row)
      where
        value-nonempty : (v : Option String) → nonempty (value_or_unmapped v) ≡ true
        value-nonempty none = refl
        value-nonempty (some String.[]) = refl
        value-nonempty (some (String.◌∷◌ c s)) = refl

    node_same :
        (f : NodeField) (o : Option HierarchyRow) (k : String)
        → nonempty k ≡ true
        → str_eq (label_of_node f o) k ≡ (
            if str_eq k "Unmapped" then str_eq (label_of_node f o) "Unmapped" else field_is C f k o)
    node_same f none k full = ground (arith, eq_iff k "Unmapped", eq_iff "Unmapped" k)
    node_same f (some row) k full = value_same (field_of f row) k full

    pub node_label_same :
        {R : Type 0} (f : NodeField) (r q : ResultView R)
        → str_eq (node_label C rows f r) (node_label C rows f q) ≡ (
            if str_eq (node_label C rows f q) "Unmapped"
            then str_eq (node_label C rows f r) "Unmapped"
            else node_match C rows r.rep_id (scored_date r) f (node_label C rows f q))
    unfolding node_label node_match
    node_label_same f r q =
        node_same f (resolve_node C rows r.rep_id (scored_date r)) _ (label-nonempty f _)

    pub agent_keys :
        (o p : Option String)
        → (agent_key C rows o).agent_id ≡ (agent_key C rows p).agent_id
        → (agent_key C rows o).key ≡ (agent_key C rows p).key
    agent_keys none none same = refl
    agent_keys none (some q) same = cc
    agent_keys (some rep) none same = cc
    agent_keys (some rep) (some q) same = cc

pub some_text : (a b : String) → ◌≡◌ {A = Option String} (some a) (some b) → a ≡ b
some_text a b e = cc
