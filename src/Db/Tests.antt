-- ===== src/Db/Tests.antt =====
-- The Postgres hash store of src/prooflens/db/hashstore.py on a small table.
use prooflens.Base.{String, ◌≤◌, ◌<◌, refl, ◌++◌, count, ◌≡◌, List, [], ◌∷◌, none, some}
use prooflens.Engine.Types.{HashMatch}
use prooflens.Engine.HashStore.{Row, hamming_hex, hamming_codes, count_ones, hex_value}
use prooflens.Db.HashStore.{ImageHash, candidates, scan, max_candidates, pg_nearest}
use prooflens.Db.HashStore.Least.{is_own, IsFound, pg_nearest-least}

abbrev hash_row : String → Row
hash_row h = record { dhash = h; rep_id = none; opportunity_id = none; captured_at = none }

abbrev two_tenants : List ImageHash
two_tenants =
    record { tenant_id = "acme"; stored = hash_row "00ff"; created_at = none }
    ∷ record { tenant_id = "other"; stored = hash_row "00aa"; created_at = none }
    ∷ record { tenant_id = "acme"; stored = hash_row "00fe"; created_at = some "2026-07-10" }
    ∷ []

own_found :
    pg_nearest "acme" "00ff" two_tenants
    ≡ some (record {
      match_distance = 0;
      match_dhash = "00ff";
      match_rep_id = none;
      match_opportunity_id = none;
      match_created_at = none;
    })
unfolding pg_nearest scan candidates hamming_hex hamming_codes count_ones hex_value
own_found = refl

pg_nearest-least_example :
    IsFound "acme" "00ff" two_tenants (pg_nearest "acme" "00ff" two_tenants)
    × ((m : HashMatch)
        → pg_nearest "acme" "00ff" two_tenants ≡ some m
        → (older newer : List ImageHash) (q : ImageHash) → two_tenants ≡ older ++ q ∷ newer
        → q.tenant_id ≡ "acme"
        → count (is_own "acme") newer < max_candidates
        → m.match_distance ≤ hamming_hex "00ff" q.stored.dhash)
pg_nearest-least_example = pg_nearest-least "acme" "00ff" two_tenants
