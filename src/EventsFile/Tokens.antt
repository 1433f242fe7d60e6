-- ===== src/EventsFile/Tokens.antt =====
-- What common/events_file.h uses of streams and strings: words, white space, searches.
use pqc_edr.Base.{
  ℕ, Bool, ◌&&◌, ◌||◌, Option, none, some, [], ◌∷◌, length, drop, leb, ◌==◌, is_empty,
  if◌then◌else◌,
}
use pqc_edr.Base.Words.{Bytes}
use pqc_edr.Base.Text.{starts_with}

-- `isspace` of the C locale
unfoldable pub is_space : ℕ → Bool
is_space c = c == 32 || (leb 9 c && leb c 13)

-- `" \t\r\n"`
unfoldable pub is_blank_char : ℕ → Bool
is_blank_char c = c == 32 || (c == 9 || (c == 13 || c == 10))

-- The text before the first character of a kind, and that character with what follows it.
unfoldable pub break_at : (ℕ → Bool) → Bytes → Bytes × Bytes
break_at stop [] = ([], [])
break_at stop (c ∷ s) =
    let rest = break_at stop s in if stop c then ([], c ∷ s) else (c ∷ rest.0, rest.1)

unfoldable pub skip_while : (ℕ → Bool) → Bytes → Bytes
skip_while kind [] = []
skip_while kind (c ∷ s) = if kind c then skip_while kind s else c ∷ s

-- `is >> token`
unfoldable pub read_token : Bytes → Option (Bytes × Bytes)
read_token s =
    let r = break_at is_space (skip_while is_space s) in if is_empty r.0 then none else some r

unfoldable pub drop_trailing : (ℕ → Bool) → Bytes → Bytes
drop_trailing kind [] = []
drop_trailing kind (c ∷ s) =
    let rest = drop_trailing kind s in if is_empty rest && kind c then [] else c ∷ rest

unfoldable pub trim : Bytes → Bytes
trim s = drop_trailing is_blank_char (skip_while is_blank_char s)

-- What follows the first occurrence of a text, as `s.substr(s.find(sub) + sub.size())`.
unfoldable pub find_after : Bytes → Bytes → Option Bytes
find_after sub [] = if starts_with sub [] then some [] else none
find_after sub (c ∷ s) =
    let later = find_after sub s in
    if starts_with sub (c ∷ s) then some (drop (length sub) (c ∷ s)) else later
