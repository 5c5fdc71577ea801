-- ===== src/Engine/HashStore.antt =====
-- src/prooflens/engine/hashstore.py: Hamming distance of hex hashes, and the in-memory store.
pub mod Hamming
pub mod Nearest
use Prim.Native.Nat.{bit_xor}
use prooflens.Base.{
  ℕ, zero, suc, ◌+◌, ◌-◌, ◌*◌, ◌/◌, ◌%◌, max, String, Bool, true, false, List, [], ◌∷◌, ◌++◌,
  Option, none, some, Dict, lookup, insert, string_eq, codes, length, ltb, leb, ◌==◌, ◌&&◌, or_else,
  if◌then◌else◌,
}
use prooflens.Engine.Types.{HashMatch}

-- The value of one hexadecimal digit. The hashes that are compared are `str(imagehash.dhash(img))`,
-- which has no other characters; `int(s, 16)` would raise on one, and here it counts as 0.
abbrev pub hex_digit : ℕ → ℕ
hex_digit c =
    if leb 48 c && leb c 57
    then c - 48
    else if leb 97 c && leb c 102
    then c - 87
    else if leb 65 c && leb c 70
    then c - 55
    else 0

-- `int(s, 16)`
unfoldable pub hex_value : ℕ → List ℕ → ℕ
hex_value acc [] = acc
hex_value acc (c ∷ cs) = hex_value (acc * 16 + hex_digit c) cs

-- `bin(n).count("1")`, on as many bits as the fuel says.
unfoldable pub count_ones : ℕ → ℕ → ℕ
count_ones zero n = 0
count_ones (suc fuel) n = n % 2 + count_ones fuel (n / 2)

-- A hash of k digits has 4 * k bits.
unfoldable pub hamming_codes : List ℕ → List ℕ → ℕ
hamming_codes a b =
    if length a == length b
    then count_ones (4 * length a) (bit_xor (hex_value 0 a) (hex_value 0 b))
    else max (length a) (length b) * 4

unfoldable pub hamming_hex : String → String → ℕ
hamming_hex a b = hamming_codes (codes a) (codes b)

-- One row of the store: (dhash_hex, rep_id, opportunity_id, captured_at).
pub record Row : Type 0 where
  pub dhash : String
  pub rep_id : Option String
  pub opportunity_id : Option String
  pub captured_at : Option String

abbrev pub Store : Type 0
Store = Dict String (List Row)

abbrev pub rows_of : String → Store → List Row
rows_of tenant_id s = or_else (lookup tenant_id s) []

abbrev pub match_of : ℕ → Row → HashMatch
match_of dist r = record {
  match_distance = dist;
  match_dhash = r.dhash;
  match_rep_id = r.rep_id;
  match_opportunity_id = r.opportunity_id;
  match_created_at = r.captured_at;
}

-- `best is None or dist < best.distance`
abbrev pub closer : Row → ℕ → Option HashMatch → Option HashMatch
closer r dist none = some (match_of dist r)
closer r dist (some best) =
    if ltb dist best.match_distance then some (match_of dist r) else some best

-- The loop of `nearest`
unfoldable pub nearest_from : String → Option HashMatch → List Row → Option HashMatch
nearest_from h best [] = best
nearest_from h best (r ∷ rows) = nearest_from h (closer r (hamming_hex h r.dhash) best) rows

unfoldable pub nearest : String → String → Store → Option HashMatch
nearest tenant_id h s = nearest_from h none (rows_of tenant_id s)

unfoldable pub remember : String → Row → Store → Store
remember tenant_id r s = insert tenant_id (rows_of tenant_id s ++ r ∷ []) s
