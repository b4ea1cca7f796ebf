-- ===== src/Base/Strings.antt =====
-- What the agent uses of the packages strings and fmt, on bytes: case, spaces and prefixes go by
-- ASCII.
use mmw_agent.Base.{
  ℕ, zero, suc, ◌+◌, ◌/◌, ◌%◌, Text, text_eq, nat_eq, Bool, true, false, ◌&&◌, ◌||◌, List, [], ◌∷◌,
  ◌++◌, length, take, leb, ltb, if◌then◌else◌, ◌==◌,
}
use mmw_agent.Base.Int.{ℤ, pos, negsuc}

-- `%d`. The fuel bounds the number of digits, and n + 1 is enough.
decimal : ℕ → ℕ → Text → Text
decimal zero n acc = acc
decimal (suc fuel) n acc =
    let rest = decimal fuel (n / 10) ((b'0' + n % 10) ∷ acc) in
    if ltb n 10 then (b'0' + n) ∷ acc else rest

unfoldable pub show_int : ℤ → Text
unfolding decimal
show_int (pos n) = decimal (suc n) n []
show_int (negsuc n) = b'-' ∷ decimal (suc (suc n)) (suc n) []

unfoldable pub has_prefix : Text → Text → Bool
has_prefix key p = leb (length p) (length key) && take (length p) key == p

unfoldable pub is_space : ℕ → Bool
is_space c = c == 32 || (leb 9 c && leb c 13)

-- strings.TrimSpace(s) == "", for ASCII.
unfoldable pub is_blank : Text → Bool
is_blank [] = true
is_blank (c ∷ cs) = is_space c && is_blank cs

unfoldable pub to_lower : Text → Text
to_lower [] = []
to_lower (c ∷ cs) = (if leb 65 c && leb c 90 then c + 32 else c) ∷ to_lower cs

-- strings.TrimLeft and strings.TrimRight by spaces.
unfoldable pub trim_left : Text → Text
unfolding is_space
trim_left [] = []
trim_left (c ∷ cs) = let rest = trim_left cs in if is_space c then rest else c ∷ cs

unfoldable pub trim_right : Text → Text
unfolding is_space
trim_right [] = []
trim_right (c ∷ cs) = let rest = trim_right cs in if is_space c && rest == [] then [] else c ∷ rest

-- strings.TrimSpace
unfoldable pub trim_space : Text → Text
unfolding trim_left trim_right
trim_space s = trim_right (trim_left s)

-- strings.Join
unfoldable pub join : Text → List Text → Text
join sep [] = []
join sep (t ∷ []) = t
join sep (t ∷ u ∷ ts) = t ++ (sep ++ join sep (u ∷ ts))

-- The order of Go strings.
unfoldable pub text_le : Text → Text → Bool
unfolding nat_eq
text_le [] t = true
text_le (a ∷ s) [] = false
text_le (a ∷ s) (b ∷ t) = let rest = text_le s t in if a == b then rest else ltb a b

-- strings.Contains(s, sub)
unfoldable pub has_text : Text → Text → Bool
unfolding has_prefix
has_text [] sub = has_prefix [] sub
has_text (c ∷ cs) sub = has_prefix (c ∷ cs) sub || has_text cs sub
