-- ===== src/Util/Guards.antt =====
-- NoControlChars, IsHTTPURL and ValidHostname of internal/util/pathguard.go. They go by runes; a byte
-- of a longer rune is 128 or more, so that going by bytes gives the same answers.
mod Tests
use mmw_agent.Base.{
  ℕ, zero, suc, ◌+◌, ◌-◌, ◌*◌, ◌/◌, ◌%◌, ◌^◌, ◌≤◌, ◌<◌, ◌≡◌, refl, sym, ap, ◌∙◌, ◌≢◌, ◌↔◌, ◌⊎◌, inl,
  inr, ite, Bool, true, false, not, ◌&&◌, ◌||◌, Option, none, some, List, [], ◌∷◌, ◌++◌, map, arith,
  Text, text, text_eq, nat_eq, ◌==◌, ltb, leb, if◌then◌else◌, ltb→lt, lt→ltb, le→ltb, Bool-cases,
  Option-cases, length, take, drop, All, length-append, length-drop, take-append, drop-append,
  length-take, take-drop, drop-length-take, Eq, contains,
}
use mmw_agent.Base.Int.{ℤ, pos, negsuc, is_pos, is_neg, ltb_ℤ, add_one, sub_one, to_ℕ}
use mmw_agent.Base.Dict.{
  Dict, lookup, insert, erase, lookup-cons, lookup-insert, lookup-erase, keys, is_some,
  contains-keys,
}
use mmw_agent.Base.Strings.{has_prefix}

unfoldable pub no_control_chars : Text → Bool
unfolding nat_eq
no_control_chars [] = true
no_control_chars (r ∷ rs) =
    let rest = no_control_chars rs in if ltb r 32 || r == 127 then false else rest

unfoldable pub is_http_url : Text → Bool
unfolding no_control_chars has_prefix
is_http_url s =
    no_control_chars s && (has_prefix s (text "http://") || has_prefix s (text "https://"))

unfoldable pub has_dot_dot : Text → Bool
unfolding nat_eq
has_dot_dot [] = false
has_dot_dot (r ∷ []) = false
has_dot_dot (r ∷ q ∷ rs) = let rest = has_dot_dot (q ∷ rs) in (r == 46 && q == 46) || rest

unfoldable pub host_char : ℕ → Bool
unfolding nat_eq
host_char r =
    (leb 97 r && leb r 122)
    || ((leb 65 r && leb r 90) || ((leb 48 r && leb r 57) || (r == 46 || r == 45)))

unfoldable pub host_chars : Text → Bool
unfolding host_char
host_chars [] = true
host_chars (r ∷ rs) = let rest = host_chars rs in if not (host_char r) then false else rest

unfoldable pub valid_hostname : Text → Bool
unfolding host_chars has_dot_dot text_eq
valid_hostname s = if s == [] || (ltb 253 (length s) || has_dot_dot s) then false else host_chars s

-- No byte of the text is that one.
unfoldable pub lacks : ℕ → Text → Bool
unfolding nat_eq
lacks c [] = true
lacks c (r ∷ rs) = not (r == c) && lacks c rs

host_char-bounds :
    (r : ℕ) → host_char r ≡ true → ((r == 47) ≡ false) × ((ltb r 32 || r == 127) ≡ false)
unfolding host_char nat_eq
host_char-bounds r h = (ground (arith, h), ground (arith, h))

host_chars-safe :
    (s : Text) → host_chars s ≡ true → (lacks 47 s ≡ true) × (no_control_chars s ≡ true)
unfolding host_chars lacks no_control_chars
host_chars-safe [] h = (refl, refl)
host_chars-safe (r ∷ rs) h = elim (Bool-cases (host_char r)) [
  | inr bad ↦ ground (arith, bad, h)
  | inl good ↦
      let (slash, control) = host_char-bounds r good in
      let (more, clean) = host_chars-safe rs (ground (arith, good, h)) in
      (rw slash more, rw control clean)
]

-- A valid host name, which becomes part of a file name, has a byte, no slash, no two
-- dots in a row and no control character, and at most 253 bytes.
pub valid_hostname-safe :
    (s : Text)
    → valid_hostname s ≡ true
    → (s ≢ [])
      × (lacks 47 s ≡ true)
      × (has_dot_dot s ≡ false)
      × (no_control_chars s ≡ true)
      × (length s ≤ 253)
unfolding valid_hostname
valid_hostname-safe s h =
    let chars : host_chars s ≡ true = ground (arith, h) in
    let (slash, clean) = host_chars-safe s chars in
    (ground (arith, h), slash, ground (arith, h), clean, ground (arith, h))
