-- ===== src/Handler/Routes.antt =====
-- internal/handler/return_route_handler.go: which backbone a trace came back by. The trace itself is a
-- parameter; ToLower and ToUpper are those of ASCII.
use mmw_agent.Base.{
  ◌-◌, Bool, not, ◌&&◌, ◌||◌, Option, none, some, List, [], ◌∷◌, ◌++◌, Text, text, text_eq, nat_eq,
  ◌==◌, leb, if◌then◌else◌, drop, contains,
}
use mmw_agent.Base.Strings.{has_prefix, to_lower, trim_space, has_text}

unfoldable pub to_upper : Text → Text
to_upper [] = []
to_upper (c ∷ cs) = (if leb b'a' c && leb c b'z' then c - 32 else c) ∷ to_upper cs

unfoldable pub normalize_asn : Text → Text
unfolding to_upper trim_space has_prefix
normalize_asn v =
    let t = to_upper (trim_space v) in if has_prefix t (text "AS") then drop 2 t else t

-- The UTF-8 of the names that the code looks for: China, Hong Kong, Macao, Taiwan.
abbrev pub china : Text
china = 228 ∷ 184 ∷ 173 ∷ 229 ∷ 155 ∷ 189 ∷ []

abbrev pub hong_kong : Text
hong_kong = 233 ∷ 166 ∷ 153 ∷ 230 ∷ 184 ∷ 175 ∷ []

abbrev pub macao : Text
macao = 230 ∷ 190 ∷ 179 ∷ 233 ∷ 151 ∷ 168 ∷ []

abbrev pub taiwan : Text
taiwan = 229 ∷ 143 ∷ 176 ∷ 230 ∷ 185 ∷ 190 ∷ []

unfoldable pub is_mainland_china : Text → Bool
unfolding to_lower trim_space has_text text_eq
is_mainland_china country =
    let v = to_lower (trim_space country) in
    (has_text v china || v == text "china")
    && (not (has_text v hong_kong) && (not (has_text v macao) && not (has_text v taiwan)))

-- returnRouteHop, with what the classification reads.
pub record Hop : Type 0 where
  pub ip : Text
  pub asn : Text
  pub country : Text
  pub owner : Text

abbrev pub mainland_asns : List Text
mainland_asns =
    text "23764"
    ∷ text "4809"
    ∷ text "4134"
    ∷ text "4837"
    ∷ text "9929"
    ∷ text "10099"
    ∷ text "58453"
    ∷ text "9808"
    ∷ text "58807"
    ∷ text "4538"
    ∷ text "7497"
    ∷ []

unfoldable pub is_mainland_entry_hop : Hop → Bool
unfolding is_mainland_china has_prefix normalize_asn contains text_eq
is_mainland_entry_hop hop =
    is_mainland_china hop.country
    || (has_prefix hop.ip (text "59.43.") || contains (normalize_asn hop.asn) mainland_asns)

unfoldable pub by_entry : Text → Text
unfolding text_eq
by_entry asn =
    if asn == text "4538"
    then text "CERNET"
    else (if asn == text "7497" then text "CSTNET" else text "Unknown")

-- The first of the networks that is in the path decides.
unfoldable pub by_path : List (Text × Text) → List Text → Text → Text
unfolding contains text_eq by_entry
by_path [] path asn = by_entry asn
by_path ((network, route) ∷ networks) path asn =
    let rest = by_path networks path asn in if contains network path then route else rest

abbrev pub networks : List (Text × Text)
networks =
    (text "23764", text "CTG GIA")
    ∷ (text "4809", text "CN2 GIA")
    ∷ (text "58807", text "CMIN2")
    ∷ (text "9929", text "9929")
    ∷ (text "10099", text "10099")
    ∷ (text "4134", text "163")
    ∷ (text "4837", text "4837")
    ∷ (text "58453", text "CMI")
    ∷ (text "9808", text "CMI")
    ∷ []

unfoldable pub classify_return_route : Option Hop → List Text → Text
unfolding by_path
classify_return_route none path = text "Unknown"
classify_return_route (some entry) path = by_path networks path entry.asn

-- The corrections of a hop's network.
unfoldable pub corrected : Hop → Hop
unfolding has_prefix has_text to_lower
corrected hop =
    let asn1 = if has_prefix hop.ip (text "59.43.") then text "4809" else hop.asn in
    record hop {
      asn = if has_text (to_lower hop.owner) (text "ctgnet") then text "23764" else asn1;
    }

unfoldable pub add_asn : Text → List Text → List Text
unfolding contains text_eq
add_asn asn path = if asn == [] || contains asn path then path else path ++ (asn ∷ [])

unfoldable pub first_entry : Option Hop → Hop → Option Hop
unfolding is_mainland_entry_hop
first_entry (some e) hop = some e
first_entry none hop = if is_mainland_entry_hop hop then some hop else none

-- The loop over the hops, each the first probe that was answered: the entry and the path.
unfoldable pub trace_hops : Option Hop → List Text → List Hop → Option Hop × List Text
unfolding corrected add_asn first_entry
trace_hops entry path [] = (entry, path)
trace_hops entry path (h ∷ hops) =
    let hop = corrected h in trace_hops (first_entry entry hop) (add_asn hop.asn path) hops

-- The route of a trace; none asks for the other tool.
unfoldable pub route_of : Text → Option Hop → List Text → Option Text
unfolding classify_return_route text_eq
route_of carrier none path = none
route_of carrier (some entry) path =
    let route = classify_return_route (some entry) path in
    some (if route == text "Unknown" && carrier == text "telecom" then text "163" else route)

unfoldable pub trace_return_route : Text → List Hop → Option Text
unfolding trace_hops route_of
trace_return_route carrier hops =
    let (entry, path) = trace_hops none [] hops in route_of carrier entry path
