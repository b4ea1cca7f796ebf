-- ===== src/Handler/Config/Ensure.antt =====
-- EnsureXrayConfig: the sections that are added to a configuration, with the names it reports.
use mmw_agent.Base.{
  ℕ, Bool, true, not, List, [], ◌∷◌, ◌++◌, Text, text, text_eq, nat_eq, ◌==◌, if◌then◌else◌,
}
use mmw_agent.Json.{Json, bool, num, str, Object, array, object}
use mmw_agent.Base.Int.{pos}
use mmw_agent.Base.Strings.{show_int}
use mmw_agent.Base.Dict.{lookup, insert, is_some}
use mmw_agent.Handler.Config.Dedupe.{dedupe_tagged_array}
use mmw_agent.Handler.Config.Defaults.{
  has_valid_policy, has_api_inbound, add_api_inbound, has_api_routing_rule, add_api_routing_rule,
  has_required_outbounds, add_required_outbounds, ensure_routing_rules,
  remove_deprecated_routing_rules,
}

abbrev pub api_section : Json
api_section = object (
    (text "tag", str (text "api"))
    ∷ (
      text "services",
      array (
          str (text "HandlerService")
          ∷ str (text "LoggerService")
          ∷ str (text "StatsService")
          ∷ str (text "RoutingService")
          ∷ []),
    )
    ∷ [])

abbrev pub metrics_section : Json
metrics_section =
    object ((text "tag", str (text "Metrics")) ∷ (text "listen", str (text "127.0.0.1:38889")) ∷ [])

abbrev pub log_section : Json
log_section = object ((text "loglevel", str (text "error")) ∷ [])

abbrev pub template_policy : Json
template_policy = object (
    (
      text "levels",
      object (
          (
            text "0",
            object (
                (text "handshake", num (pos 5) (text "5"))
                ∷ (text "connIdle", num (pos 300) (text "300"))
                ∷ (text "uplinkOnly", num (pos 2) (text "2"))
                ∷ (text "downlinkOnly", num (pos 2) (text "2"))
                ∷ (text "statsUserUplink", bool true)
                ∷ (text "statsUserDownlink", bool true)
                ∷ []),
          )
          ∷ []),
    )
    ∷ (
      text "system",
      object (
          (text "statsInboundUplink", bool true)
          ∷ (text "statsInboundDownlink", bool true)
          ∷ (text "statsOutboundUplink", bool true)
          ∷ (text "statsOutboundDownlink", bool true)
          ∷ []),
    )
    ∷ [])

-- A configuration and the sections that were added; it is modified if there are any.
abbrev pub Progress : Type 0
Progress = Object × List Text

-- if cond { change; append the name }
unfoldable pub change_if : Bool → Text → Object → Progress → Progress
change_if b name config' (config, added) =
    if b then (config', added ++ (name ∷ [])) else (config, added)

-- if _, ok := config[key]; !ok { config[key] = v; ... }
unfoldable pub add_section : Text → Json → Progress → Progress
unfolding change_if
add_section key v p = change_if (not (is_some (lookup key p.0))) key (insert key v p.0) p

unfoldable pub ensure_if_not : (Object → Bool) → (Object → Object) → Text → Progress → Progress
unfolding change_if
ensure_if_not has add name p = change_if (not (has p.0)) name (add p.0) p

unfoldable pub report_change : Object × Bool → Text → Progress → Progress
unfolding change_if
report_change (config', changed) name p = change_if changed name config' p

unfoldable pub report_removed : Object × ℕ → Text → Progress → Progress
unfolding change_if show_int nat_eq
report_removed (config', removed) name p =
    change_if (not (removed == 0)) (name ++ show_int (pos removed)) config' p

unfoldable pub dedupe_both : Progress → Progress
unfolding report_removed
dedupe_both p =
    let p1 : Progress =
      report_removed (dedupe_tagged_array p.0 (text "inbounds")) (text "dedupe_inbounds_removed=")
        p in
    report_removed (dedupe_tagged_array p1.0 (text "outbounds")) (text "dedupe_outbounds_removed=")
      p1

unfoldable pub ensure_sections : Progress → Progress
unfolding add_section ensure_if_not
ensure_sections p = ensure_if_not has_required_outbounds add_required_outbounds (text "outbounds") (
    ensure_if_not has_api_routing_rule add_api_routing_rule (text "api_routing_rule") (
      ensure_if_not has_api_inbound add_api_inbound (text "api_inbound") (
        ensure_if_not has_valid_policy (insert (text "policy") template_policy) (text "policy")
          (add_section (text "stats") (object []) (add_section (text "api") api_section p)))))

unfoldable pub ensure_rest : Progress → Progress
unfolding add_section report_change dedupe_both
ensure_rest p =
    let p1 : Progress =
      add_section (text "log") log_section (add_section (text "metrics") metrics_section p) in
    let p2 : Progress = report_change (ensure_routing_rules p1.0) (text "routing_rules") p1 in
    dedupe_both (
      report_change (remove_deprecated_routing_rules p2.0) (text "removed_deprecated_routing_rules")
        p2)

unfoldable pub ensure_xray_config : Object → Progress
unfolding ensure_sections ensure_rest
ensure_xray_config config = ensure_rest (ensure_sections (config, []))
