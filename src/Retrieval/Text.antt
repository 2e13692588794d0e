-- ===== src/Retrieval/Text.antt =====
-- The operations on `str` and the regular expressions that packages/retrieval/chunking.py uses. A
-- text is the list of its code points.
use multi_agent_system.Base.{
  ℕ, zero, suc, List, [], ◌∷◌, Option, none, some, Bool, true, false, not, ◌&&◌, ◌||◌, ◌==◌, leb,
  length, drop, if◌then◌else◌,
}

abbrev pub Text : Type 0
Text = List ℕ

abbrev between : ℕ → ℕ → ℕ → Bool
between low high c = leb low c && leb c high

-- `c.isspace()`, which is also what `\s` matches.
abbrev pub is_space : ℕ → Bool
is_space c =
    between 9 13 c
    || between 28 32 c
    || c == 133
    || c == 160
    || c == 5760
    || between 8192 8202 c
    || between 8232 8233 c
    || c == 8239
    || c == 8287
    || c == 12288

abbrev pub newline : ℕ
newline = 10

-- The boundaries of `splitlines`.
abbrev pub is_line_break : ℕ → Bool
is_line_break c = between 10 13 c || between 28 30 c || c == 133 || between 8232 8233 c

abbrev pub is_empty : Text → Bool
is_empty [] = true
is_empty (c ∷ t) = false

unfoldable pub lstrip : Text → Text
lstrip [] = []
lstrip (c ∷ t) = let rest = lstrip t in if is_space c then rest else c ∷ t

-- `c + t`, less the spaces at its end, where `t` has none there.
abbrev keep_left : ℕ → Text → Text
keep_left c [] = if is_space c then [] else c ∷ []
keep_left c (d ∷ t) = c ∷ d ∷ t

unfoldable pub rstrip : Text → Text
rstrip [] = []
rstrip (c ∷ t) = keep_left c (rstrip t)

unfoldable pub strip : Text → Text
unfolding lstrip rstrip
strip t = rstrip (lstrip t)

-- `c` before the first of some lines.
abbrev pub put_before : ℕ → List Text → List Text
put_before c [] = (c ∷ []) ∷ []
put_before c (l ∷ ls) = (c ∷ l) ∷ ls

abbrev pub starts_with : ℕ → Text → Bool
starts_with c [] = false
starts_with c (d ∷ t) = d == c

-- `splitlines()`; a carriage return and a newline are one boundary.
unfoldable pub split_lines : Text → List Text
split_lines [] = []
split_lines (c ∷ t) =
    let rest = split_lines t in
    if c == 13 && starts_with newline t
    then rest
    else if is_line_break c
    then [] ∷ rest
    else put_before c rest

-- `"\n".join(lines)`
unfoldable pub join_lines : List Text → Text
join_lines [] = []
join_lines (l ∷ []) = l
join_lines (l ∷ k ∷ ls) = append l (newline ∷ join_lines (k ∷ ls))
  where
    append : Text → Text → Text
    append [] t = t
    append (c ∷ s) t = c ∷ append s t

-- How far the last newline of the spaces at the start lies, if there is one.
abbrev blank_length : Text → Option ℕ
blank_length [] = none
blank_length (c ∷ t) =
    let rest = blank_length t in
    if is_space c
    then elim rest [ some n ↦ some (suc n) | none ↦ if c == newline then some 1 else none ]
    else none

abbrev or_zero : Option ℕ → ℕ
or_zero none = 0
or_zero (some n) = n

abbrev is_blank : Option ℕ → Bool
is_blank none = false
is_blank (some n) = true

-- What stands behind the next characters, which a match has consumed, up to the next match.
unfoldable pub split_after : ℕ → Text → List Text
split_after n [] = [] ∷ []
split_after (suc n) (c ∷ t) = split_after n t
split_after zero (c ∷ t) =
    let blank = if c == newline then blank_length t else none in
    let rest = split_after (or_zero blank) t in
    if is_blank blank then [] ∷ rest else put_before c rest

-- `re.split(r"\n\s*\n", text)`
unfoldable pub split_paragraphs : Text → List Text
unfolding split_after
split_paragraphs t = split_after 0 t

-- The number of `#` at the start.
abbrev hashes : Text → ℕ
hashes [] = 0
hashes (c ∷ t) = let rest = hashes t in if c == 35 then suc rest else 0

-- Group 2 of `^(#{1,6})\s+(.+?)\s*$`, stripped: a line matches when one to six `#` and a space are
-- followed by anything, of which the group can be a space.
unfoldable pub heading_of : Text → Option Text
unfolding strip
heading_of line =
    let level = hashes line in
    let rest = drop level line in
    if leb 1 level && leb level 6 && any_space rest && leb 2 (length rest)
    then some (strip rest)
    else none
  where
    any_space : Text → Bool
    any_space [] = false
    any_space (c ∷ t) = is_space c

-- `len(text.split())`, inside or outside of a word.
unfoldable pub count_words : Bool → Text → ℕ
count_words inside [] = 0
count_words inside (c ∷ t) =
    let rest = count_words (not (is_space c)) t in if is_space c || inside then rest else suc rest
