-- ===== src/Service/Casings.antt =====
-- A casing of src/prooflens/service/ids.py for the tests.
use Prim.Native.Char.{Char, code}
use prooflens.Base.{
  String, ◌≡◌, refl, inl, inr, map_text, strip-map, nonempty, is_space, is_space_code, ◌==◌, ==_iff,
  if◌then◌else◌, Bool-cases,
}
use prooflens.Service.Ids.{Casing}

-- A casing that knows one letter
abbrev pub capital : Char → Char
capital c = if code c == 97 then "A" else c

pub capital-twice : (c : Char) → capital (capital c) ≡ capital c
capital-twice c = elim (Bool-cases (code c == 97)) [ inl a ↦ rw a | inr other ↦ rw (other, other) ]

pub capital-space : (c : Char) → is_space (capital c) ≡ is_space c
unfolding is_space_code
capital-space c = elim (Bool-cases (code c == 97)) [
  | inl a ↦ rw (a, (==_iff (code c) 97).0 a)
  | inr other ↦ rw other
]

pub map_text-twice : (s : String) → map_text capital (map_text capital s) ≡ map_text capital s
map_text-twice String.[] = refl
map_text-twice (String.◌∷◌ c s) = rw (capital-twice c, map_text-twice s)

pub nonempty-map_text : (s : String) → nonempty (map_text capital s) ≡ nonempty s
nonempty-map_text String.[] = refl
nonempty-map_text (String.◌∷◌ c s) = refl

abbrev pub one_letter : Casing
one_letter = record {
  upper = map_text capital;
  upper_idem = map_text-twice;
  strip-upper = strip-map capital capital-space;
  upper-nonempty = nonempty-map_text;
}
