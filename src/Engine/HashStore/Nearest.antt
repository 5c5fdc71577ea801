-- ===== src/Engine/HashStore/Nearest.antt =====
-- `nearest` and `remember` of src/prooflens/engine/hashstore.py: the match is a row of the tenant
-- at the least distance, and tenants do not see one another's rows.
use prooflens.Base.{
  ℕ, ◌≤◌, String, ◌≡◌, refl, sym, subst, ◌≢◌, ◌↔◌, ◌⊎◌, inl, inr, List, [], ◌∷◌, ◌++◌, Option, none,
  some, arith, In, In-append_right, lookup-insert_self, lookup-insert_ne, string_eq, ap,
  Option-cases, List-cases,
}
use prooflens.Engine.Types.{HashMatch}
use prooflens.Engine.HashStore.{
  hamming_hex, Row, Store, rows_of, match_of, closer, nearest_from, nearest, remember,
}
use prooflens.Engine.HashStore.Hamming.{hamming_hex_self}

nearest_from-le_best :
    (h : String) (b m : HashMatch) (rows : List Row)
    → nearest_from h (some b) rows ≡ some m
    → m.match_distance ≤ b.match_distance
unfolding nearest_from
nearest_from-le_best h b m [] e = ground arith
nearest_from-le_best h b m (r ∷ rows) e = ground (
  arith,
  nearest_from-le_best h b m rows,
  nearest_from-le_best h (match_of (hamming_hex h r.dhash) r) m rows,
)

pub nearest_from-le_row :
    (h : String) (best : Option HashMatch) (m : HashMatch) (rows : List Row) (r : Row)
    → nearest_from h best rows ≡ some m
    → In r rows
    → m.match_distance ≤ hamming_hex h r.dhash
unfolding nearest_from
nearest_from-le_row h best m [] r e i = absurd i
nearest_from-le_row h none m (q ∷ rows) r e (inl same) =
    subst (λ (x : Row). m.match_distance ≤ hamming_hex h x.dhash) (sym same)
      (nearest_from-le_best h (match_of (hamming_hex h q.dhash) q) m rows e)
nearest_from-le_row h (some b) m (q ∷ rows) r e (inl same) =
    subst (λ (x : Row). m.match_distance ≤ hamming_hex h x.dhash) (sym same)
      (ground (
        arith,
        nearest_from-le_best h b m rows,
        nearest_from-le_best h (match_of (hamming_hex h q.dhash) q) m rows,
      ))
nearest_from-le_row h best m (q ∷ rows) r e (inr i) =
    nearest_from-le_row h (closer q (hamming_hex h q.dhash) best) m rows r e i

closer-source :
    (r : Row) (dist : ℕ) (best : Option HashMatch) (m : HashMatch)
    → closer r dist best ≡ some m
    → (best ≡ some m) ⊎ (m ≡ match_of dist r)
closer-source r dist none m e = ground arith
closer-source r dist (some b) m e = ground arith

-- The match is the old best or made from a row.
pub nearest_from-source :
    (h : String) (best : Option HashMatch) (m : HashMatch) (rows : List Row)
    → nearest_from h best rows ≡ some m
    → (best ≡ some m) ⊎ ((r : Row) × In r rows × (m ≡ match_of (hamming_hex h r.dhash) r))
unfolding nearest_from
nearest_from-source h best m [] e = inl e
nearest_from-source h best m (q ∷ rows) e =
    elim (nearest_from-source h (closer q (hamming_hex h q.dhash) best) m rows e) [
      | inl now ↦ elim (closer-source q (hamming_hex h q.dhash) best m now) [
        | inl old ↦ inl old
        | inr made ↦ inr (q, inl refl, made)
      ]
      | inr (r, i, made) ↦ inr (r, inr i, made)
    ]

pub nearest_from-ne-none :
    (h : String) (b : HashMatch) (rows : List Row) → nearest_from h (some b) rows ≢ none
unfolding nearest_from
nearest_from-ne-none h b [] e = cc
nearest_from-ne-none h b (r ∷ rows) e = ground (
  arith,
  nearest_from-ne-none h b rows,
  nearest_from-ne-none h (match_of (hamming_hex h r.dhash) r) rows,
)

module _ (tenant_id h : String) (s : Store) where
  -- `nearest` finds nothing exactly where the tenant has no rows.
  pub nearest-none_iff : (nearest tenant_id h s ≡ none) ↔ (rows_of tenant_id s ≡ [])
  unfolding nearest nearest_from
  nearest-none_iff = (
    λ e. elim (List-cases (rows_of tenant_id s)) [
      | inl empty ↦ empty
      | inr (r, rest, some_rows) ↦
          absurd
            (nearest_from-ne-none h _ rest (subst (λ l. nearest_from h none l ≡ none) some_rows e))
    ],
    λ empty. ap (nearest_from h none) empty,
  )

  -- The match that `nearest` returns is made from a row of that tenant, and no row of the tenant
  -- is closer.
  nearest-least :
      (m : HashMatch)
      → nearest tenant_id h s ≡ some m
      → ((r : Row) × In r (rows_of tenant_id s) × (m ≡ match_of (hamming_hex h r.dhash) r))
        × ((r : Row) → In r (rows_of tenant_id s) → m.match_distance ≤ hamming_hex h r.dhash)
  unfolding nearest
  nearest-least m e = (
    elim (nearest_from-source h none m (rows_of tenant_id s) e) [
      | inl no_best ↦ cc
      | inr made ↦ made
    ],
    λ r i. nearest_from-le_row h none m (rows_of tenant_id s) r e i,
  )

-- After `remember`, the same hash of the same tenant is found at distance 0, and the answer for
-- any other tenant is what it was.
pub nearest-remember :
    (tenant_id : String) (r : Row) (s : Store)
    → ((m : HashMatch) × (nearest tenant_id r.dhash (remember tenant_id r s) ≡ some m)
        × (m.match_distance ≡ 0))
      × ((other h : String)
          → tenant_id ≢ other
          → nearest other h (remember tenant_id r s) ≡ nearest other h s)
unfolding remember
nearest-remember tenant_id r s =
    (found, λ other h ne. unfold nearest in rw (lookup-insert_ne tenant_id other _ s ne))
  where
    after : Store
    after = remember tenant_id r s

    stored : In r (rows_of tenant_id after)
    stored =
        rw (lookup-insert_self tenant_id (rows_of tenant_id s ++ r ∷ []) s)
          (In-append_right r (rows_of tenant_id s) (r ∷ []) (inl refl))

    found : (m : HashMatch) × (nearest tenant_id r.dhash after ≡ some m) × (m.match_distance ≡ 0)
    found = elim (Option-cases (nearest tenant_id r.dhash after)) [
      | inl e ↦ absurd (subst (In r) ((nearest-none_iff tenant_id r.dhash after).0 e) stored)
      | inr (m, e) ↦ (
        m,
        e,
        omega (
          arith,
          (nearest-least tenant_id r.dhash after m e).1 r stored,
          hamming_hex_self r.dhash,
        ),
      )
    ]
