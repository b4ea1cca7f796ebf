-- ===== src/Startup/Tests.antt =====
-- Examples of the start-up merge.
use mmw_agent.Base.{◌≡◌, refl, some, [], ◌∷◌, text, text_eq, nat_eq}
use mmw_agent.Json.{Json, null, num, str, array, object, array_at, object_at, string_at, items_at}
use mmw_agent.Base.Int.{pos}
use mmw_agent.Base.Dict.{lookup, insert}
use mmw_agent.Startup.{merge_rules, merge_xray_config}
use mmw_agent.Startup.Restart.{Sorted, merge_rules-settled}
use mmw_agent.Handler.Config.Clients.{object_or_empty}
use mmw_agent.Handler.Config.Rules.{classify_rule_priority}
use mmw_agent.Startup.Patch.{is_port_443}
use mmw_agent.Startup.Signature.{rule_signature}
use mmw_agent.Startup.Patch.{patch_tunnel_forward, protect_master_port}

abbrev direct_rule : Json
direct_rule = object (
    (text "inboundTag", array (str (text "tunnel-in") ∷ []))
    ∷ (text "outboundTag", str (text "direct"))
    ∷ [])

abbrev tunnel_rule : Json
tunnel_rule = object ((text "outboundTag", str (text "tunnel-1")) ∷ [])

-- The rule of the file that the template has is not added again, and the tunnel comes first.
test_merge :
    merge_rules (direct_rule ∷ tunnel_rule ∷ []) (direct_rule ∷ []) ≡ tunnel_rule ∷ direct_rule ∷ []
unfolding merge_rules string_at lookup object_or_empty rule_signature classify_rule_priority
test_merge = refl

merge_rules-settled_example :
    Sorted (merge_rules (direct_rule ∷ tunnel_rule ∷ []) (direct_rule ∷ []))
    × (merge_rules
          (merge_rules (direct_rule ∷ tunnel_rule ∷ []) (direct_rule ∷ []))
          (direct_rule ∷ [])
        ≡ merge_rules (direct_rule ∷ tunnel_rule ∷ []) (direct_rule ∷ []))
merge_rules-settled_example =
    merge_rules-settled (direct_rule ∷ tunnel_rule ∷ []) (direct_rule ∷ []) (refl, tt)

test_patch :
    patch_tunnel_forward (
      (
        text "inbounds",
        array (
            object ((text "protocol", str (text "tunnel")) ∷ (text "settings", object []) ∷ [])
            ∷ []),
      )
      ∷ [])
    ≡ some (
        (
          text "inbounds",
          array (
              object (
                (text "protocol", str (text "tunnel"))
                ∷ (text "settings", object ((text "network", str (text "tcp,udp")) ∷ []))
                ∷ [])
              ∷ []),
        )
        ∷ [])
unfolding patch_tunnel_forward array_at lookup insert string_at object_at object_or_empty
test_patch = refl

test_protect :
    protect_master_port
      ((text "inbounds", array (object ((text "port", num (pos 443) (text "443")) ∷ []) ∷ [])) ∷ [])
    ≡ (text "inbounds", array []) ∷ (text "outbounds", array []) ∷ []
unfolding protect_master_port object_at lookup insert items_at is_port_443 object_or_empty
test_protect = refl

test_merge_config :
    merge_xray_config
      (some ((text "log", str (text "a")) ∷ (text "dns", null) ∷ []))
      (some ((text "log", str (text "b")) ∷ []))
    ≡ some ((text "log", str (text "b")) ∷ (text "dns", null) ∷ [])
unfolding merge_xray_config insert
test_merge_config = refl
