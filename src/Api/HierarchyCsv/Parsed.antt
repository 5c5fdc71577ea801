-- ===== src/Api/HierarchyCsv/Parsed.antt =====
-- The rows that `_parse_csv` of src/prooflens/api/hierarchy_admin.py accepts.
use prooflens.Base.{
  ℕ, suc, String, ◌≡◌, refl, sym, ap, ◌∙◌, ◌≢◌, subst, ◌⊎◌, inl, inr, Bool, true, false, not, ◌&&◌,
  ◌||◌, List, [], ◌∷◌, Option, none, some, map, length, str_eq, eq_iff, ==_iff, ◌==◌, strip, All,
  All-In, All-In_intro, IsDistinctOn, arith, string_eq, if◌then◌else◌,
}
use prooflens.Service.Ids.{Casing, normalize_id, normalize_id_idem}
use prooflens.Service.Hierarchy.{HierarchyRow}
use prooflens.Service.Organisation.{text_or_none, kept_row}
use prooflens.Api.HierarchyCsv.{
  UploadError, Record, Key, field, is_seen, with_day, with_agent, row_of_record, key_of_row,
  add_row, and_then, parse_row, parse_rows, some_rows, if_known, is_in, missing_column,
  unknown_names, records, parse_csv,
}

left_ne : {A B : Type 0} {e : A} {x : B} → ◌≡◌ {A = A ⊎ B} (inl e) (inr x) → ⊥
left_ne e = cc

right_inj : {A B : Type 0} {x y : B} → ◌≡◌ {A = A ⊎ B} (inr x) (inr y) → x ≡ y
right_inj e = cc

pub some_inj : {A : Type 0} {a b : A} → some a ≡ some b → a ≡ b
some_inj h = cc

cons_ne : {A : Type 0} (x : A) (xs : List A) → x ∷ xs ≢ []
cons_ne x xs e = cc

-- The rows of the file after its header
abbrev pub data_records : (String → String) → List (List String) → List Record
data_records lower [] = []
data_records lower (fieldnames ∷ lines) = records lower fieldnames lines

module _ (C : Casing) where
  -- What every accepted row meets: its id is normalized and it is kept as it stands.
  abbrev pub IsNormal : HierarchyRow → Type 0
  IsNormal r =
      (agent : String) × (r.agent_id ≡ some agent)
      × (normalize_id C (some agent) ≡ some agent)
      × (kept_row C r ≡ r)

  abbrev pub IsFresh : List Key → HierarchyRow → Type 0
  IsFresh seen r = is_seen (key_of_row r) seen ≡ false

  text_or_none_idem : (s : Option String) → text_or_none (text_or_none s) ≡ text_or_none s
  text_or_none_idem none = refl
  text_or_none_idem (some String.[]) = refl
  text_or_none_idem (some (String.◌∷◌ c s)) = refl

  module _ (lower : String → String) (other : String → Option ℕ) (today : ℕ) where
    with_day-IsNormal :
        (i : ℕ) (seen : List Key) (norm : Record) (agent vf_raw : String) (vf : Option ℕ)
        (r : HierarchyRow)
        → normalize_id C (some agent) ≡ some agent
        → with_day i seen norm agent vf_raw vf ≡ inr r
        → IsNormal r × IsFresh seen r
    with_day-IsNormal i seen norm agent vf_raw none r n h = absurd (left_ne h)
    with_day-IsNormal i seen norm agent vf_raw (some vf) r n h =
        by_seen (is_seen (agent, vf) seen) refl h
      where
        made : IsNormal (row_of_record agent vf norm)
        made = (agent, refl, n, rw (n, text_or_none_idem (field "agent_name" norm)))

        by_seen :
            (b : Bool)
            → is_seen (agent, vf) seen ≡ b
            → ◌≡◌ {A = UploadError ⊎ HierarchyRow}
                (if b
                  then inl (UploadError.duplicate_agent i agent vf)
                  else inr (row_of_record agent vf norm))
                (inr r)
            → IsNormal r × IsFresh seen r
        by_seen true s e = absurd (left_ne e)
        by_seen false s e = subst (λ x. IsNormal x × IsFresh seen x) (right_inj e) (made, s)

    with_agent-IsNormal :
        (i : ℕ) (seen : List Key) (norm : Record) (id found : Option String) (r : HierarchyRow)
        → normalize_id C id ≡ found
        → with_agent C lower other today i seen norm found ≡ inr r
        → IsNormal r × IsFresh seen r
    with_agent-IsNormal i seen norm id none r n h = absurd (left_ne h)
    with_agent-IsNormal i seen norm id (some agent) r n h =
        with_day-IsNormal i seen norm agent _ _ r
          (ap (normalize_id C) (sym n) ∙ normalize_id_idem C id ∙ n) h

    parse_row-IsNormal :
        (i : ℕ) (seen : List Key) (norm : Record) (r : HierarchyRow)
        → parse_row C lower other today i seen norm ≡ inr r
        → IsNormal r × IsFresh seen r
    unfolding parse_row
    parse_row-IsNormal i seen norm r h =
        with_agent-IsNormal i seen norm (field "agent_id" norm) _ r refl h

    IsFresh-cons :
        (k j : Key) (seen : List Key)
        → is_seen k (j ∷ seen) ≡ false
        → (is_seen k seen ≡ false) × (j ≢ k)
    IsFresh-cons k j seen h = (
      ground arith,
      λ e.
          let names = (eq_iff j.0 k.0).1 (ap (λ x. x.0) e) in
          let days = (==_iff j.1 k.1).1 (ap (λ x. x.1) e) in
          absurd (clash (str_eq j.0 k.0) (j.1 == k.1) (is_seen k seen) names days h),
    )
      where
        clash : (a b c : Bool) → a ≡ true → b ≡ true → ((a && b) || c) ≡ false → ⊥
        clash a b c p q r = ground arith

    abbrev pub IsParsed : List Key → List Record → List HierarchyRow → Type 0
    IsParsed seen raws rows =
        All IsNormal rows
        × All (IsFresh seen) rows
        × IsDistinctOn key_of_row rows
        × (length rows ≡ length raws)

    parse_rows-IsParsed :
        (i : ℕ) (seen : List Key) (raws : List Record) (rows : List HierarchyRow)
        → parse_rows C lower other today i seen raws ≡ inr rows
        → IsParsed seen raws rows
    unfolding parse_rows
    parse_rows-IsParsed i seen [] rows h = subst (IsParsed seen []) (right_inj h) (tt, tt, tt, refl)
    parse_rows-IsParsed i seen (norm ∷ raws) rows h =
        by_row (parse_row C lower other today i seen norm)
          (λ r rest q. parse_rows-IsParsed (suc i) (key_of_row r ∷ seen) raws rest q) refl h
      where
        by_rest :
            (r : HierarchyRow) (parsed : UploadError ⊎ List HierarchyRow)
            → IsNormal r × IsFresh seen r
            → ((rest : List HierarchyRow)
                → parsed ≡ inr rest
                → IsParsed (key_of_row r ∷ seen) raws rest)
            → add_row r parsed ≡ inr rows
            → IsParsed seen (norm ∷ raws) rows
        by_rest r (inl e) n ih e' = absurd (left_ne e')
        by_rest r (inr rest) n ih e' =
            let (normal, fresh, distinct, same) = ih rest refl in
            subst (IsParsed seen (norm ∷ raws)) (right_inj e') (
              (n.0, normal),
              (
                n.1,
                All-In_intro (IsFresh seen) rest (λ x i.
                    (IsFresh-cons (key_of_row x) (key_of_row r) seen
                      (All-In (IsFresh (key_of_row r ∷ seen)) x rest fresh i)).0),
              ),
              (
                All-In_intro (λ x. key_of_row r ≢ key_of_row x) rest
                    (λ x i.
                      (IsFresh-cons (key_of_row x) (key_of_row r) seen
                        (All-In (IsFresh (key_of_row r ∷ seen)) x rest fresh i)).1),
                distinct,
              ),
              ap suc same,
            )

        by_row :
            (x : UploadError ⊎ HierarchyRow)
            → ((r : HierarchyRow) (rest : List HierarchyRow)
                → parse_rows C lower other today (suc i) (key_of_row r ∷ seen) raws ≡ inr rest
                → IsParsed (key_of_row r ∷ seen) raws rest)
            → parse_row C lower other today i seen norm ≡ x
            → and_then (λ r. parse_rows C lower other today (suc i) (key_of_row r ∷ seen) raws) x
              ≡ inr rows
            → IsParsed seen (norm ∷ raws) rows
        by_row (inl e) ih p e' = absurd (left_ne e')
        by_row (inr r) ih p e' =
            by_rest r (parse_rows C lower other today (suc i) (key_of_row r ∷ seen) raws)
              (parse_row-IsNormal i seen norm r p) (ih r) e'

    some_rows-IsParsed :
        (raws : List Record) (rows : List HierarchyRow)
        → some_rows (parse_rows C lower other today 2 [] raws) ≡ inr rows
        → (rows ≢ []) × IsParsed [] raws rows
    some_rows-IsParsed raws rows h = by_rows (parse_rows C lower other today 2 [] raws) refl h
      where
        by_rows :
            (parsed : UploadError ⊎ List HierarchyRow)
            → parse_rows C lower other today 2 [] raws ≡ parsed
            → some_rows parsed ≡ inr rows
            → (rows ≢ []) × IsParsed [] raws rows
        by_rows (inl e) p q = absurd (left_ne q)
        by_rows (inr []) p q = absurd (left_ne q)
        by_rows (inr (r ∷ rest)) p q =
            subst (λ x. (x ≢ []) × IsParsed [] raws x) (right_inj q)
              (cons_ne r rest, parse_rows-IsParsed 2 [] raws (r ∷ rest) p)

    if_known-IsParsed :
        (headers : List String) (raws : List Record) (unknown : List String)
        (rows : List HierarchyRow)
        → if_known C lower other today headers raws unknown ≡ inr rows
        → (rows ≢ []) × IsParsed [] raws rows
    if_known-IsParsed headers raws (x ∷ unknown) rows h = absurd (left_ne h)
    if_known-IsParsed headers raws [] rows h =
        by_columns (not (is_in headers "agent_id")) (not (is_in headers "valid_from")) h
      where
        by_columns :
            (a b : Bool)
            → (if a
                then inl (missing_column "agent_id")
                else if b
                then inl (missing_column "valid_from")
                else some_rows (parse_rows C lower other today 2 [] raws))
              ≡ inr rows
            → (rows ≢ []) × IsParsed [] raws rows
        by_columns true b q = absurd (left_ne q)
        by_columns false true q = absurd (left_ne q)
        by_columns false false q = some_rows-IsParsed raws rows q

    pub parse_csv-IsParsed :
        (lines : List (List String)) (rows : List HierarchyRow)
        → parse_csv C lower other today lines ≡ inr rows
        → (rows ≢ []) × IsParsed [] (data_records lower lines) rows
    unfolding parse_csv
    parse_csv-IsParsed [] rows h = absurd (left_ne h)
    parse_csv-IsParsed (fieldnames ∷ lines) rows h =
        if_known-IsParsed (map (λ x. lower (strip x)) fieldnames) (records lower fieldnames lines)
          (unknown_names (map (λ x. lower (strip x)) fieldnames)) rows h
