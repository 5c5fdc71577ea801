-- ===== src/Db/Columns.antt =====
-- What the columns of src/prooflens/db/models.py take: a text in String(n) has at most n
-- characters, and no text or JSON has the character 0. Where a value does not fit, the statement
-- raises and the transaction is rolled back.
use prooflens.Base.{
  ℕ, String, Bool, true, not, ◌&&◌, Option, none, some, any, length, codes, leb, ◌==◌,
}

-- No character 0
abbrev pub is_storable : String → Bool
is_storable s = not (any (λ c. c == 0) (codes s))

-- String(n), NOT NULL
abbrev pub fits : ℕ → String → Bool
fits n s = leb (length (codes s)) n && is_storable s

-- String(n) and Text that may be NULL
abbrev pub fits_or_null : ℕ → Option String → Bool
fits_or_null n none = true
fits_or_null n (some s) = fits n s

abbrev pub storable_or_null : Option String → Bool
storable_or_null none = true
storable_or_null (some s) = is_storable s

-- String(n), where NULL is refused
abbrev pub fits_not_null : ℕ → Option String → Bool
fits_not_null n none = Bool.false
fits_not_null n (some s) = fits n s

-- Integer
abbrev pub max_integer : ℕ
max_integer = 2147483647
