-- ===== src/Calendar/Text.antt =====
-- `_escape` and `_fold` of app/calendar/ics.py, and the way a reader of RFC 5545 undoes them.
-- A text is its code points.
use stpt_query.Common.{ℕ, ◌+◌, ◌&&◌, List, [], ◌∷◌, ◌++◌, ltb, leb, ◌==◌, if◌then◌else◌}

abbrev pub backslash : ℕ
backslash = 92

abbrev pub newline : List ℕ
newline = 92 ∷ 110 ∷ []

-- `text.replace(m, by)` for a text `m` of one character
abbrev pub replace : ℕ → List ℕ → List ℕ → List ℕ
replace m by [] = []
replace m by (c ∷ cs) = let rest = replace m by cs in if c == m then by ++ rest else (c ∷ rest)

-- `text.replace("\r\n", by)`
abbrev pub replace_crlf : List ℕ → List ℕ → List ℕ
replace_crlf by [] = []
replace_crlf by (c ∷ []) = c ∷ []
replace_crlf by (c ∷ d ∷ cs) =
    let both = replace_crlf by cs in
    let one = replace_crlf by (d ∷ cs) in if (c == 13) && (d == 10) then by ++ both else (c ∷ one)

abbrev pub escape : List ℕ → List ℕ
escape text =
    let value =
      replace 44 (92 ∷ 44 ∷ []) (replace 59 (92 ∷ 59 ∷ []) (replace 92 (92 ∷ 92 ∷ []) text)) in
    replace 13 newline (replace 10 newline (replace_crlf newline value))

-- What a reader does: a backslash and `n` is a line break, a backslash and another character is it.
abbrev pub unescape : List ℕ → List ℕ
unescape [] = []
unescape (c ∷ []) = c ∷ []
unescape (c ∷ d ∷ cs) =
    let rest = unescape cs in
    let next = unescape (d ∷ cs) in
    if c == 92 then ((if d == 110 then 10 else d) ∷ rest) else (c ∷ next)

-- Each of the three line breaks as one line feed.
abbrev pub line_feeds : List ℕ → List ℕ
line_feeds text = replace 13 (10 ∷ []) (replace_crlf (10 ∷ []) text)

-- `len(char.encode("utf-8"))`
abbrev pub width : ℕ → ℕ
width c = if ltb c 128 then 1 else if ltb c 2048 then 2 else if ltb c 65536 then 3 else 4

abbrev pub bytes : List ℕ → ℕ
bytes [] = 0
bytes (c ∷ cs) = width c + bytes cs

-- The loop, with `limit`, `size` and `current`: the chunks from here on.
abbrev pub chunks_from : ℕ → ℕ → List ℕ → List ℕ → List (List ℕ)
chunks_from limit size current [] = current ∷ []
chunks_from limit size current (c ∷ cs) =
    let next = chunks_from 74 (width c) (c ∷ []) cs in
    let same = chunks_from limit (size + width c) (current ++ (c ∷ [])) cs in
    if ltb limit (size + width c) then current ∷ next else same

-- `(CRLF + " ").join(chunks)`
abbrev pub continued : List (List ℕ) → List ℕ
continued [] = []
continued (x ∷ xs) = 13 ∷ 10 ∷ 32 ∷ (x ++ continued xs)

abbrev pub join : List (List ℕ) → List ℕ
join [] = []
join (x ∷ xs) = x ++ continued xs

abbrev pub fold : List ℕ → List ℕ
fold line = if leb (bytes line) 75 then line else join (chunks_from 75 0 [] line)

-- What a reader does: a line break and a space are taken out.
abbrev pub unfold_text : List ℕ → List ℕ
unfold_text [] = []
unfold_text (c ∷ []) = c ∷ []
unfold_text (c ∷ d ∷ []) = c ∷ d ∷ []
unfold_text (c ∷ d ∷ e ∷ cs) =
    let rest = unfold_text cs in
    let next = unfold_text (d ∷ e ∷ cs) in
    if (c == 13) && (d == 10) && (e == 32) then rest else (c ∷ next)

abbrev pub onto_first : ℕ → List (List ℕ) → List (List ℕ)
onto_first c [] = (c ∷ []) ∷ []
onto_first c (s ∷ ss) = (c ∷ s) ∷ ss

-- The physical lines of a text.
abbrev pub lines_of : List ℕ → List (List ℕ)
lines_of [] = [] ∷ []
lines_of (c ∷ []) = (c ∷ []) ∷ []
lines_of (c ∷ d ∷ cs) =
    let rest = lines_of cs in
    let next = lines_of (d ∷ cs) in if (c == 13) && (d == 10) then [] ∷ rest else onto_first c next
