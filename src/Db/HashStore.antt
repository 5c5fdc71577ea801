-- ===== src/Db/HashStore.antt =====
-- src/prooflens/db/hashstore.py: the nearest hash in Postgres, beside the in-memory store of
-- src/prooflens/engine/hashstore.py. The table holds rows in the order of their ids; a match's
-- created_at is the row's time of insertion.
pub mod Least
use mathlib.Core.List.{reverse-cons, reverse-append, map-append, append_assoc}
use prooflens.Base.{
  zero, suc, ◌≤◌, ◌<◌, sym, ap, subst, ◌∙◌, ◌≢◌, inl, inr, count, length, length-map, length-take,
  length-filter, length-reverse, filter-append, In, In-take, In-map, In-filter, In-reverse, All,
  All-In_intro, eq_iff, string_eq, ℕ, String, ◌≡◌, refl, Bool, true, ◌&&◌, List, [], ◌∷◌, ◌++◌,
  Option, none, some, filter, take, reverse, map, str_eq, ltb, ◌==◌, if◌then◌else◌, arith,
}
use prooflens.Db.Columns.{fits, fits_or_null}
use prooflens.Engine.Types.{HashMatch}
use prooflens.Engine.HashStore.{Row, hamming_hex, match_of, nearest_from}
use prooflens.Engine.HashStore.Nearest.{
  nearest_from-le_row, nearest_from-source, nearest_from-ne-none,
}

-- A row of image_hashes
pub record ImageHash : Type 0 where
  pub tenant_id : String
  pub stored : Row
  pub created_at : Option String

abbrev pub max_candidates : ℕ
max_candidates = 50000

-- What a match takes from a row: its created_at is the row's time of insertion.
abbrev pub stored_row : ImageHash → Row
stored_row r = record r.stored { captured_at = r.created_at }

-- The candidates, newest first
unfoldable pub candidates : String → List ImageHash → List Row
candidates tenant table =
    take max_candidates (map stored_row (reverse (filter (λ r. str_eq r.tenant_id tenant) table)))

-- One round, with the distance: a closer row becomes the best.
abbrev pub is_closer : ℕ → Option HashMatch → Bool
is_closer dist none = true
is_closer dist (some best) = ltb dist best.match_distance

-- The loop, left at distance 0
unfoldable pub scan : String → Option HashMatch → List Row → Option HashMatch
scan h best [] = best
scan h best (r ∷ rows) =
    let dist = hamming_hex h r.dhash in
    let closer_rest = scan h (some (match_of dist r)) rows in
    let same_rest = scan h best rows in
    if is_closer dist best
    then if dist == 0 then some (match_of dist r) else closer_rest
    else same_rest

-- `nearest`
unfoldable pub pg_nearest : String → String → List ImageHash → Option HashMatch
pg_nearest tenant h table = scan h none (candidates tenant table)

-- The columns dhash, rep_id, opportunity_id and captured_at take their values.
abbrev pub is_hash_storable : Row → Bool
is_hash_storable r =
    fits 16 r.dhash
    && fits_or_null 200 r.rep_id
    && fits_or_null 200 r.opportunity_id
    && fits_or_null 64 r.captured_at

-- `remember`: none is the error of the database for a row that does not fit.
unfoldable pub pg_remember : String → Row → Option String → List ImageHash → Option (List ImageHash)
pg_remember tenant r now table =
    if is_hash_storable r
    then some (table ++ record { tenant_id = tenant; stored = r; created_at = now } ∷ [])
    else none
