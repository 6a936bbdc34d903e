-- ===== src/Rag/Citations.antt =====
-- extractCitationIds of packages/rag/src/answer-validation.ts.
use tech_p.Base.{
  ℕ, Bool, ◌&&◌, Option, none, some, List, [], ◌∷◌, ◌++◌, if◌then◌else◌, leb, ◌==◌, any, Text,
  eq_text,
}

-- `\d` without the i flag: an ASCII digit.
abbrev pub is_digit : ℕ → Bool
is_digit c = leb b'0' c && leb c b'9'

abbrev pub push_unit : ℕ → Option Text → Option Text
push_unit c none = none
push_unit c (some ds) = some (c ∷ ds)

-- `\d*\]`: the digits before a closing bracket, if nothing else stands before it.
unfoldable pub digits_closed : Text → Option Text
digits_closed [] = none
digits_closed (c ∷ s) =
    let more = push_unit c (digits_closed s) in
    if c == b']' then some [] else (if is_digit c then more else none)

-- `(C\d+)`, if there is a digit at all
abbrev pub id_of : Option Text → Option Text
id_of none = none
id_of (some []) = none
id_of (some (d ∷ ds)) = some (b'C' ∷ d ∷ ds)

-- `\[(C\d+)\]` at the start of the text.
unfoldable pub match_at : Text → Option Text
unfolding digits_closed
match_at (a ∷ b ∷ s) = if a == b'[' && b == b'C' then id_of (digits_closed s) else none
match_at _ = none

-- `text.matchAll(/\[(C\d+)\]/gu)`. A match has its only opening bracket at its start, so no two overlap
-- and every position can be tried.
abbrev pub cons_some : Option Text → List Text → List Text
cons_some none ids = ids
cons_some (some id) ids = id ∷ ids

unfoldable pub matches : Text → List Text
unfolding match_at
matches [] = []
matches (c ∷ s) = cons_some (match_at (c ∷ s)) (matches s)

abbrev pub has_text : Text → List Text → Bool
has_text t ids = any (λ u. eq_text u t) ids

-- The Set that `ids.add` fills: the first of equal ids stays. `seen` is in the order of insertion.
unfoldable pub distinct : List Text → List Text → List Text
distinct seen [] = seen
distinct seen (id ∷ ids) = distinct (if has_text id seen then seen else seen ++ id ∷ []) ids

unfoldable pub extract_citation_ids : Text → List Text
unfolding matches distinct
extract_citation_ids text = distinct [] (matches text)
