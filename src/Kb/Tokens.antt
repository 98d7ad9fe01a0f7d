-- ===== src/Kb/Tokens.antt =====
-- go-watch-file/internal/kb/service.go: the tokens of a question. A text is cut into runes, each the list of its bytes.
use go_watch_file.Base.{
  ℕ, Bool, true, false, not, List, [], ◌∷◌, ◌++◌, reverse, ◌||◌, ◌&&◌, if◌then◌else◌, ltb, leb,
  length, take,
}
use go_watch_file.Base.Str.{Str, str_eq, is_empty}
use go_watch_file.Base.Trim.{trim_space}
use go_watch_file.Base.Runes.{runes, of_runes}
use go_watch_file.Kb.Normal.{lower_trim, seen_in}
use go_watch_file.Kb.Queries.{Host}

-- The runes that strings.FieldsFunc keeps.
unfoldable pub is_token_rune : Host → Str → Bool
is_token_rune host r =
    host.is_letter r || host.is_digit r || str_eq r (b'_' ∷ []) || str_eq r (b'-' ∷ [])

unfoldable pub is_ascii_rune : Str → Bool
is_ascii_rune [] = false
is_ascii_rune (c ∷ r) = leb c 127

unfoldable pub all_ascii : Host → List Str → Bool
all_ascii host [] = true
all_ascii host (r ∷ rs) = is_ascii_rune r && is_token_rune host r && all_ascii host rs

abbrev pub none_left : List Str → Bool
none_left [] = true
none_left (r ∷ rs) = false

-- isASCIIWord
unfoldable pub is_ascii_word : Host → List Str → Bool
is_ascii_word host rs = all_ascii host rs && not (none_left rs)

-- minTokenLen
unfoldable pub min_token_len : Host → List Str → ℕ
min_token_len host rs = if is_ascii_word host rs then 3 else 2

abbrev flush : List Str → List (List Str) → List (List Str)
flush [] parts = parts
flush (r ∷ rs) parts = (r ∷ rs) ∷ parts

-- strings.FieldsFunc; `part` is what was read of the next field.
unfoldable pub fields_func : (Str → Bool) → List Str → List Str → List (List Str)
fields_func keep part [] = flush part []
fields_func keep part (r ∷ rs) =
    let inside = fields_func keep (part ++ r ∷ []) rs in
    let outside = fields_func keep [] rs in if keep r then inside else flush part outside

unfoldable pub trim_marks_left : List Str → List Str
trim_marks_left [] = []
trim_marks_left (r ∷ rs) =
    let rest = trim_marks_left rs in
    if str_eq r (b'_' ∷ []) || str_eq r (b'-' ∷ []) then rest else r ∷ rs

-- `strings.Trim(part, "-_")`.
unfoldable pub trim_marks : List Str → List Str
trim_marks rs = reverse (trim_marks_left (reverse (trim_marks_left rs)))

-- The closure push; the map `seen` holds the tokens.
unfoldable pub push_token : Str → List Str → List Str
push_token raw tokens =
    let token = trim_space raw in
    if is_empty token || seen_in token tokens then tokens else tokens ++ token ∷ []

abbrev pub max_tokens : ℕ
max_tokens = 32

-- The slices of n runes, from the left.
unfoldable pub windows : ℕ → List Str → List (List Str)
windows n [] = []
windows n (r ∷ rs) =
    let rest = windows n rs in if leb n (length (r ∷ rs)) then take n (r ∷ rs) ∷ rest else []

-- The tokens so far, and whether tokenizeSearchQuery has returned them.
abbrev pub Tokens : Type 0
Tokens = Bool × List Str

unfoldable pub push_windows : List (List Str) → List Str → Tokens
push_windows [] tokens = (false, tokens)
push_windows (w ∷ ws) tokens =
    let tokens' = push_token (of_runes w) tokens in
    let rest = push_windows ws tokens' in
    if leb max_tokens (length tokens') then (true, tokens') else rest

abbrev and_then : Tokens → (List Str → Tokens) → Tokens
and_then (true, tokens) next = (true, tokens)
and_then (false, tokens) next = next tokens

-- The body of the loop over the parts.
unfoldable pub push_part : Host → List Str → List Str → Tokens
push_part host raw tokens =
    let part = trim_marks raw in
    let word =
      if leb (min_token_len host part) (length part)
      then push_token (of_runes part) tokens
      else tokens in
    let grams = and_then (push_windows (windows 2 part) word) (push_windows (windows 3 part)) in
    if none_left part
    then (false, tokens)
    else if is_ascii_word host part || ltb (length part) 4
    then (false, word)
    else grams

unfoldable pub push_parts : Host → List (List Str) → List Str → Tokens
push_parts host [] tokens = (false, tokens)
push_parts host (p ∷ ps) tokens = and_then (push_part host p tokens) (push_parts host ps)

unfoldable pub compact : Host → List Str → List Str
compact host [] = []
compact host (r ∷ rs) =
    let rest = compact host rs in if host.is_letter r || host.is_digit r then r ∷ rest else rest

-- What follows the loop, unless it returned.
unfoldable pub finish_tokens : List Str → Tokens → List Str
finish_tokens joined (true, tokens) = tokens
finish_tokens joined (false, tokens) =
    let tokens' = if leb 4 (length joined) then push_token (of_runes joined) tokens else tokens in
    if ltb max_tokens (length tokens') then take max_tokens tokens' else tokens'

-- tokenizeSearchQuery
unfoldable pub tokenize_search_query : Host → Str → List Str
tokenize_search_query host query =
    let normalized = runes (lower_trim query) in
    finish_tokens (compact host normalized)
      (push_parts host (fields_func (is_token_rune host) [] normalized) [])
