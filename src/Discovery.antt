-- ===== src/Discovery.antt =====
-- internal/discovery/args.go: the paths in the arguments of an xray process.
use mmw_agent.Base.{
  ◌≡◌, refl, Bool, ◌||◌, Option, none, some, List, [], ◌∷◌, Text, text, text_eq, nat_eq, ◌==◌,
  if◌then◌else◌, contains,
}

pub record XrayPaths : Type 0 where
  pub config_path : Text
  pub conf_dir : Text

-- strings.Cut(arg, "=")
unfoldable pub cut : Text → Option (Text × Text)
unfolding nat_eq
cut [] = none
cut (c ∷ cs) =
    let rest = cut cs in
    if c == b'=' then some ([], cs) else elim rest [ none ↦ none | some (k, v) ↦ some (c ∷ k, v) ]

abbrev pub config_flags : List Text
config_flags = text "-config" ∷ text "-c" ∷ text "--config" ∷ []

abbrev pub dir_flags : List Text
dir_flags = text "-confdir" ∷ text "-d" ∷ text "--confdir" ∷ []

unfoldable pub set_flag : Text → Text → XrayPaths → XrayPaths
unfolding contains text_eq
set_flag k v p =
    if contains k config_flags
    then record p { config_path = v }
    else (if contains k dir_flags then record p { conf_dir = v } else p)

unfoldable pub is_flag : Text → Bool
unfolding contains text_eq
is_flag arg = contains arg config_flags || contains arg dir_flags

-- The loop, which passes over the value of a flag; `pending` is the flag that waits for its value.
unfoldable pub parse_args : Option Text → List Text → XrayPaths → XrayPaths
unfolding set_flag is_flag cut
parse_args pending [] p = p
parse_args (some flag) (arg ∷ args) p = parse_args none args (set_flag flag arg p)
parse_args none (arg ∷ args) p = elim (cut arg) [
  | some (k, v) ↦ parse_args none args (set_flag k v p)
  | none ↦ parse_args (if is_flag arg then some arg else none) args p
]

unfoldable pub parse_xray_args : List Text → XrayPaths
unfolding parse_args
parse_xray_args args = parse_args none args (record { config_path = []; conf_dir = [] })

test_args :
    parse_xray_args (text "run" ∷ text "-c" ∷ text "a.json" ∷ text "-confdir=d" ∷ text "-d" ∷ [])
    ≡ record { config_path = text "a.json"; conf_dir = text "d" }
unfolding parse_xray_args
test_args = refl
