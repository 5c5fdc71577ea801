-- ===== src/Db/HashStore/Least.antt =====
-- `nearest` of src/prooflens/db/hashstore.py finds a row of the tenant at the least distance.
use mathlib.Core.List.{reverse-cons, reverse-append, map-append, append_assoc}
use prooflens.Base.{
  zero, suc, ◌≤◌, ◌<◌, sym, ap, subst, ◌∙◌, ◌≢◌, inl, inr, count, length, length-map, length-take,
  length-filter, length-reverse, filter-append, In, In-take, In-map, In-filter, In-reverse, All,
  All-In_intro, eq_iff, string_eq, ℕ, String, ◌≡◌, refl, Bool, true, List, [], ◌∷◌, ◌++◌, Option,
  none, some, filter, take, reverse, map, str_eq, arith,
}
use prooflens.Engine.Types.{HashMatch}
use prooflens.Engine.HashStore.{Row, hamming_hex, match_of, nearest_from}
use prooflens.Engine.HashStore.Nearest.{
  nearest_from-le_row, nearest_from-source, nearest_from-ne-none,
}
use prooflens.Db.HashStore.{ImageHash, max_candidates, stored_row, candidates, scan, pg_nearest}

-- Nothing is closer than distance 0.
nearest_from-zero :
    (h : String) (b : HashMatch) (rows : List Row)
    → b.match_distance ≡ 0
    → nearest_from h (some b) rows ≡ some b
unfolding nearest_from
nearest_from-zero h b [] z = refl
nearest_from-zero h b (r ∷ rows) z = ground (arith, nearest_from-zero h b rows z)

scan-nearest_from :
    (h : String) (best : Option HashMatch) (rows : List Row)
    → scan h best rows ≡ nearest_from h best rows
unfolding scan nearest_from
scan-nearest_from h best [] = refl
scan-nearest_from h none (r ∷ rows) = ground (
  arith,
  scan-nearest_from h (some (match_of (hamming_hex h r.dhash) r)) rows,
  nearest_from-zero h (match_of (hamming_hex h r.dhash) r) rows,
)
scan-nearest_from h (some b) (r ∷ rows) = ground (
  arith,
  scan-nearest_from h (some (match_of (hamming_hex h r.dhash) r)) rows,
  scan-nearest_from h (some b) rows,
  nearest_from-zero h (match_of (hamming_hex h r.dhash) r) rows,
)

In-take_here :
    {A : Type 0} (x : A) (n : ℕ) (xs ys : List A) → length xs < n → In x (take n (xs ++ x ∷ ys))
In-take_here x zero xs ys few = absurd (omega (arith, few))
In-take_here x (suc n) [] ys few = inl refl
In-take_here x (suc n) (y ∷ xs) ys few = inr (In-take_here x n xs ys (omega (arith, few)))

count-In : {A : Type 0} (p : A → Bool) (x : A) (xs : List A) → In x xs → p x ≡ true → 1 ≤ count p xs
count-In p x [] i e = absurd i
count-In p x (y ∷ xs) (inl same) e = rw (ap p (sym same) ∙ e) (omega arith)
count-In p x (y ∷ xs) (inr i) e = ground (arith, count-In p x xs i e)

nearest_from-none : (h : String) (rows : List Row) → nearest_from h none rows ≡ none → rows ≡ []
unfolding nearest_from
nearest_from-none h [] e = refl
nearest_from-none h (r ∷ rows) e = absurd (nearest_from-ne-none h _ rows e)

module _ (tenant : String) where
  abbrev pub is_own : ImageHash → Bool
  is_own r = str_eq r.tenant_id tenant

  -- Older rows, a row of the tenant and newer rows, in the order of the candidates
  candidates_around :
      (older newer : List ImageHash) (q : ImageHash)
      → is_own q ≡ true
      → reverse (filter is_own (older ++ q ∷ newer))
        ≡ reverse (filter is_own newer) ++ q ∷ reverse (filter is_own older)
  candidates_around older newer q own =
      ap reverse (filter-append is_own older (q ∷ newer))
      ∙ rw own (
          reverse-append (filter is_own older) (q ∷ filter is_own newer)
          ∙ ap (λ l. l ++ reverse (filter is_own older)) (reverse-cons q (filter is_own newer))
          ∙ append_assoc (reverse (filter is_own newer)) (q ∷ []) _)

  candidates-newest :
      (older newer : List ImageHash) (q : ImageHash)
      → q.tenant_id ≡ tenant
      → count is_own newer < max_candidates
      → In (stored_row q) (candidates tenant (older ++ q ∷ newer))
  unfolding candidates
  candidates-newest older newer q own few =
      subst (λ l. In (stored_row q) (take max_candidates l))
        (sym (
          ap (map stored_row) (candidates_around older newer q ((eq_iff q.tenant_id tenant).1 own))
          ∙ map-append stored_row (reverse (filter is_own newer)) _))
        (In-take_here (stored_row q) max_candidates (map stored_row (reverse (filter is_own newer)))
          _
          (omega (
            arith,
            length-map stored_row (reverse (filter is_own newer)),
            length-reverse (filter is_own newer),
            length-filter is_own newer,
            few,
          )))

  candidates-source :
      (table : List ImageHash) (r : Row)
      → In r (candidates tenant table)
      → (q : ImageHash) × In q table × (q.tenant_id ≡ tenant) × (r ≡ stored_row q)
  unfolding candidates
  candidates-source table r i =
      let (q, j, e) = In-map stored_row r _ (In-take r max_candidates _ i) in
      let (k, own) = In-filter is_own q table (In-reverse q (filter is_own table) j) in
      (q, k, (eq_iff q.tenant_id tenant).0 own, e)

  -- The answer comes from a row of the tenant, with the distance of its hash and the time at which
  -- it was inserted; there is none only where the tenant has no row.
  abbrev pub IsFound : String → List ImageHash → Option HashMatch → Type 0
  IsFound h table none = All (λ q. q.tenant_id ≢ tenant) table
  IsFound h table (some m) =
      (q : ImageHash) × In q table
      × (q.tenant_id ≡ tenant)
      × (m.match_distance ≡ hamming_hex h q.stored.dhash)
      × (m.match_dhash ≡ q.stored.dhash)
      × (m.match_rep_id ≡ q.stored.rep_id)
      × (m.match_opportunity_id ≡ q.stored.opportunity_id)
      × (m.match_created_at ≡ q.created_at)

  candidates-none :
      (table : List ImageHash)
      → candidates tenant table ≡ []
      → All (λ q. q.tenant_id ≢ tenant) table
  unfolding candidates
  candidates-none table empty = All-In_intro _ table (λ q i own.
      let own_rows = reverse (filter is_own table) in
      absurd (
        omega (
          arith,
          count-In is_own q table i ((eq_iff q.tenant_id tenant).1 own),
          length-filter is_own table,
          length-reverse (filter is_own table),
          length-map stored_row own_rows,
          length-take max_candidates (map stored_row own_rows),
          ap length empty,
        )))

  nearest-IsFound :
      (h : String) (table : List ImageHash) (found : Option HashMatch)
      → nearest_from h none (candidates tenant table) ≡ found
      → IsFound h table found
  nearest-IsFound h table none e =
      candidates-none table (nearest_from-none h (candidates tenant table) e)
  nearest-IsFound h table (some m) e = elim (nearest_from-source h none m _ e) [
    | inl nothing ↦ cc
    | inr (r, i, made) ↦
        let (q, j, own, same) = candidates-source table r i in
        let m_of : m ≡ match_of (hamming_hex h q.stored.dhash) (stored_row q) =
          made ∙ ap (λ x. match_of (hamming_hex h x.dhash) x) same in
        (
          q,
          j,
          own,
          ap (λ x. x.match_distance) m_of,
          ap (λ x. x.match_dhash) m_of,
          ap (λ x. x.match_rep_id) m_of,
          ap (λ x. x.match_opportunity_id) m_of,
          ap (λ x. x.match_created_at) m_of,
        )
  ]

-- The match that `nearest` returns is made from a row of the tenant, with the distance of its hash,
-- and no row of the tenant with fewer than 50000 newer ones of it is closer. Nothing is returned
-- only where the tenant has no row.
pub pg_nearest-least :
    (tenant h : String) (table : List ImageHash)
    → IsFound tenant h table (pg_nearest tenant h table)
      × ((m : HashMatch)
          → pg_nearest tenant h table ≡ some m
          → (older newer : List ImageHash) (q : ImageHash) → table ≡ older ++ q ∷ newer
          → q.tenant_id ≡ tenant
          → count (is_own tenant) newer < max_candidates
          → m.match_distance ≤ hamming_hex h q.stored.dhash)
unfolding pg_nearest
pg_nearest-least tenant h table = (
  nearest-IsFound tenant h table (scan h none (candidates tenant table))
      (sym (scan-nearest_from h none (candidates tenant table))),
  λ m e older newer q split own few.
      nearest_from-le_row h none m (candidates tenant table) (stored_row q)
        (sym (scan-nearest_from h none (candidates tenant table)) ∙ e)
        (subst (λ t. In (stored_row q) (candidates tenant t)) (sym split)
          (candidates-newest tenant older newer q own few)),
)
