-- ===== src/Text.antt =====
-- What the services use of Python's `str`: code points, `strip`, and `or` on an empty text.
use Prim.Native.Char.{code}
use Prim.Native.String.{String}
use book_club_be.Prelude.{
  ℕ, Bool, ◌&&◌, ◌||◌, Option, none, some, List, [], ◌∷◌, ◌==◌, leb, if◌then◌else◌,
}

abbrev pub codes : String → List ℕ
codes String.[] = []
codes (String.◌∷◌ c s) = code c ∷ codes s

-- str.isspace, by its code points
pub is_space : ℕ → Bool
is_space c =
    (leb 9 c && leb c 13)
    || (leb 28 c && leb c 32)
    || c == 133
    || c == 160
    || c == 5760
    || (leb 8192 c && leb c 8202)
    || c == 8232
    || c == 8233
    || c == 8239
    || c == 8287
    || c == 12288

pub lstrip : List ℕ → List ℕ
lstrip [] = []
lstrip (c ∷ cs) = let rest = lstrip cs in if is_space c then rest else c ∷ cs

abbrev pub cons_unless_space : ℕ → List ℕ → List ℕ
cons_unless_space c [] = if is_space c then [] else c ∷ []
cons_unless_space c (d ∷ ds) = c ∷ d ∷ ds

-- A trailing space is dropped when nothing but spaces follows it.
pub rstrip : List ℕ → List ℕ
rstrip [] = []
rstrip (c ∷ cs) = cons_unless_space c (rstrip cs)

unfoldable pub strip : List ℕ → List ℕ
unfolding is_space lstrip rstrip
strip cs = rstrip (lstrip cs)

-- `text or None`
abbrev pub non_empty : List ℕ → Option (List ℕ)
non_empty [] = none
non_empty (c ∷ cs) = some (c ∷ cs)
