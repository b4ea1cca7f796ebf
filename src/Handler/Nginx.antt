-- ===== src/Handler/Nginx.antt =====
-- internal/handler/nginx_control.go: the include of the managed sites in the http block.
use mmw_agent.Base.{
  ℕ, suc, ◌+◌, ◌-◌, ◌≡◌, refl, Bool, true, false, ◌&&◌, ◌||◌, Option, none, some, [], ◌∷◌, ◌++◌,
  Text, text, text_eq, nat_eq, ◌==◌, if◌then◌else◌, take, drop,
}
use mmw_agent.Base.Strings.{has_prefix}

unfoldable pub skip_blanks : Text → Text
unfolding nat_eq
skip_blanks [] = []
skip_blanks (c ∷ cs) = let rest = skip_blanks cs in if c == 9 || c == 32 then rest else c ∷ cs

unfoldable pub starts_block : Text → Bool
starts_block [] = false
starts_block (c ∷ cs) = c == b'{'

-- ^[\t ]*http[\t ]*\{ at this place.
unfoldable pub http_here : Text → Bool
unfolding skip_blanks has_prefix starts_block
http_here t =
    let rest = skip_blanks t in
    has_prefix rest (text "http") && starts_block (skip_blanks (drop 4 rest))

unfoldable pub brace_index : Text → ℕ
unfolding nat_eq
brace_index [] = 0
brace_index (c ∷ cs) = let rest = brace_index cs in if c == b'{' then 0 else suc rest

-- The index of the brace of the first match; `at_start` tells of the start of a line.
unfoldable pub http_open : Bool → Text → Option ℕ
unfolding http_here brace_index nat_eq
http_open at_start [] = none
http_open at_start (c ∷ cs) =
    let rest = http_open (c == 10) cs in
    if at_start && http_here (c ∷ cs)
    then some (brace_index (c ∷ cs))
    else elim rest [ none ↦ none | some i ↦ some (suc i) ]

-- The state of the loop: in a comment, in a quotation with whether a backslash came last, or neither.
pub data Scan : Type 0 where
  plain comment : Scan
  quoted : ℕ → Bool → Scan

unfoldable pub after_quoted : ℕ → Bool → ℕ → Scan
unfolding nat_eq
after_quoted q true c = quoted q false
after_quoted q false c =
    if c == b'\\' then quoted q true else (if c == q then plain else quoted q false)

unfoldable pub after_plain : ℕ → Scan
unfolding nat_eq
after_plain c =
    if c == b'#' then comment else (if c == b'"' || c == b'\'' then quoted c false else plain)

unfoldable pub shift : Option ℕ → Option ℕ
shift none = none
shift (some i) = some (suc i)

unfoldable pub next_scan : Scan → ℕ → Scan
unfolding after_quoted after_plain nat_eq
next_scan plain c = after_plain c
next_scan comment c = if c == 10 then plain else comment
next_scan (quoted q escaped) c = after_quoted q escaped c

unfoldable pub next_depth : Scan → ℕ → ℕ → ℕ
unfolding nat_eq
next_depth plain depth c = if c == b'{' then suc depth else (if c == b'}' then depth - 1 else depth)
next_depth comment depth c = depth
next_depth (quoted q escaped) depth c = depth

abbrev pub is_plain : Scan → Bool
is_plain plain = true
is_plain _ = false

-- The index of the brace that closes the block, by the braces that are open.
unfoldable pub block_end : Scan → ℕ → Text → Option ℕ
unfolding next_scan next_depth shift nat_eq
block_end state depth [] = none
block_end state depth (c ∷ cs) =
    let depth' = next_depth state depth c in
    let rest = block_end (next_scan state c) depth' cs in
    if is_plain state && (c == b'}' && depth' == 0) then some 0 else shift rest

unfoldable pub add_index : ℕ → Option ℕ → Option ℕ
add_index n none = none
add_index n (some i) = some (n + i)

unfoldable pub nginx_http_block_end : Text → Option ℕ
unfolding http_open block_end add_index
nginx_http_block_end config = elim (http_open true config) [
  | none ↦ none
  | some i ↦ add_index i (block_end plain 0 (drop i config))
]

unfoldable pub ends_line : Text → Bool
unfolding nat_eq
ends_line [] = false
ends_line (c ∷ []) = c == 10
ends_line (c ∷ d ∷ cs) = ends_line (d ∷ cs)

unfoldable pub with_line_end : Text → Text
unfolding ends_line
with_line_end t = if ends_line t then t else t ++ (10 ∷ [])

-- addNginxManagedInclude; none if there is no http block.
unfoldable pub add_nginx_managed_include : Text → Option Text
unfolding nginx_http_block_end with_line_end
add_nginx_managed_include config = elim (nginx_http_block_end config) [
  | none ↦ none
  | some i ↦ some (
      with_line_end (take i config) ++ (text "    include servers/*.conf;" ++ (10 ∷ drop i config)))
]

-- A brace in a quotation does not close the block.
test_include :
    add_nginx_managed_include (text "http { a \"}\"; }")
    ≡ some
        (text "http { a \"}\"; " ++ (10 ∷ (text "    include servers/*.conf;" ++ (10 ∷ text "}"))))
unfolding add_nginx_managed_include text_eq
test_include = refl

test_no_http : add_nginx_managed_include (text "events { }") ≡ none
unfolding add_nginx_managed_include text_eq
test_no_http = refl
