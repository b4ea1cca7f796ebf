-- ===== src/Handler/Probes.antt =====
-- internal/handler/domain_latency_handler.go: the domains that are probed.
use mmw_agent.Base.{
  ◌≡◌, refl, ◌||◌, Option, none, some, List, [], ◌∷◌, Text, text, text_eq, nat_eq, ◌==◌,
  if◌then◌else◌, drop, contains,
}
use mmw_agent.Base.Strings.{has_prefix, trim_space}

-- s[idx+3:] for the first "://" that is not at the end.
unfoldable pub after_scheme : Text → Option Text
unfolding has_prefix
after_scheme [] = none
after_scheme (c ∷ cs) =
    let rest = after_scheme cs in
    if has_prefix (c ∷ cs) (text "://") then some (drop 2 cs) else rest

unfoldable pub or_whole : Text → Option Text → Text
or_whole s none = s
or_whole s (some []) = s
or_whole s (some (c ∷ cs)) = c ∷ cs

unfoldable pub before_slash : Text → Text
unfolding nat_eq
before_slash [] = []
before_slash (c ∷ cs) = let rest = before_slash cs in if c == b'/' then [] else c ∷ rest

unfoldable pub drop_bracket : Text → Text
unfolding nat_eq
drop_bracket [] = []
drop_bracket (c ∷ cs) = if c == b'[' then cs else c ∷ cs

unfoldable pub drop_last_bracket : Text → Text
unfolding nat_eq
drop_last_bracket [] = []
drop_last_bracket (c ∷ []) = if c == b']' then [] else c ∷ []
drop_last_bracket (c ∷ d ∷ cs) = c ∷ drop_last_bracket (d ∷ cs)

unfoldable pub normalize_probe_input : Text → Text
unfolding trim_space after_scheme or_whole before_slash drop_bracket drop_last_bracket
normalize_probe_input raw =
    let s = trim_space raw in
    drop_last_bracket (drop_bracket (trim_space (before_slash (or_whole s (after_scheme s)))))

unfoldable pub unique_from : List Text → List Text → List Text
unfolding normalize_probe_input contains text_eq
unique_from seen [] = []
unique_from seen (raw ∷ raws) =
    let domain = normalize_probe_input raw in
    let known = domain == [] || contains domain seen in
    let rest = unique_from (if known then seen else domain ∷ seen) raws in
    if known then rest else domain ∷ rest

unfoldable pub unique_probe_domains : List Text → List Text
unfolding unique_from
unique_probe_domains raws = unique_from [] raws

test_unique :
    unique_probe_domains (text " https://a.b/c" ∷ text "a.b" ∷ text "/" ∷ text "[::1]" ∷ [])
    ≡ text "a.b" ∷ text "::1" ∷ []
unfolding unique_probe_domains
test_unique = refl
