-- ===== src/Handler/Routing.antt =====
-- manageRouting on the file: the edit is written, xray is started with it, and a start that fails
-- puts the old file back.
pub mod Batch
pub mod Reports
pub mod Effects
pub mod Tests
use mmw_agent.Base.{
  ℕ, zero, suc, ◌+◌, ◌-◌, ◌*◌, ◌/◌, ◌%◌, ◌^◌, ◌≤◌, ◌<◌, ◌≡◌, refl, sym, ap, ◌∙◌, ◌≢◌, ◌↔◌, ◌⊎◌, inl,
  inr, ite, Bool, true, false, not, ◌&&◌, ◌||◌, Option, none, some, List, [], ◌∷◌, ◌++◌, map, arith,
  Text, text, text_eq, nat_eq, ◌==◌, ltb, leb, if◌then◌else◌, ltb→lt, lt→ltb, le→ltb, Bool-cases,
  Option-cases, length, take, drop, All, length-append, length-drop, take-append, drop-append,
  length-take, take-drop, drop-length-take, Eq, contains,
}
use mmw_agent.Json.{
  Json, null, bool, num, str, arr, obj, Items, nil, cons, Fields, end, field, Object, list_of,
  items_of, dict_of, fields_of, array, object, as_array, as_object, as_string, as_bool, then_as,
  or_none, or_nil, array_at, object_at, string_at, items_at, list_of-items_of, dict_of-fields_of,
  as_array-array, as_object-object, items_at-insert, object_at-insert, array_at-insert,
  string_at-insert, sprint, sprint_at,
}
use mmw_agent.Base.Int.{ℤ, pos, negsuc, is_pos, is_neg, ltb_ℤ, add_one, sub_one, to_ℕ}
use mmw_agent.Base.Strings.{
  show_int, has_prefix, is_space, is_blank, to_lower, trim_space, join, text_le,
}
use mmw_agent.Base.Dict.{
  Dict, lookup, insert, erase, lookup-cons, lookup-insert, lookup-erase, keys, is_some,
  contains-keys,
}
use mmw_agent.Handler.Config.Rules.Edit.{RoutingRequest, Edit, refused, edited, edit_routing}
use mmw_agent.Handler.Transaction.{World, attempt, read_config, restart_xray}
use mmw_agent.Handler.Transaction.Actions.{ConfigOps}

-- A status of an error; a change that waits for the caller's restart, one that is in use, and one
-- that was refused, with whether the old configuration is back in use.
pub data RoutingResponse : Type 0 where
  failure : ℕ → RoutingResponse
  deferred restarted : RoutingResponse
  rejected : Bool → RoutingResponse

-- What a failed os.WriteFile leaves of the file, by the old and the new content.
module _ (torn : Option Text → Text → Option Text) where
  -- os.WriteFile of the configuration, which is not atomic. The result tells of a failure.
  unfoldable pub overwrite_config : Text → World → World × Bool
  unfolding attempt
  overwrite_config content w =
      let (w', failed) = attempt w in
      (record w' { config = if failed then torn w.config content else some content }, failed)

  -- The old content and a second start; whether both went well.
  unfoldable pub roll_back : Text → World → World × Bool
  unfolding overwrite_config restart_xray
  roll_back content w =
      let (w1, failed) = overwrite_config content w in
      let (w2, stopped) = restart_xray w1 in if failed then (w1, false) else (w2, not stopped)

  unfoldable pub finish_routing : World → Bool → Text → World × RoutingResponse
  unfolding restart_xray roll_back
  finish_routing w no_restart content =
      let (w1, failed) = restart_xray w in
      let (w2, rolled_back) = roll_back content w1 in
      if no_restart
      then (w, deferred)
      else (if failed then (w2, rejected rolled_back) else (w1, restarted))

  unfoldable pub write_routing : World → Bool → Text → Option Text → World × RoutingResponse
  unfolding overwrite_config finish_routing
  write_routing w no_restart content none = (w, failure 500)
  write_routing w no_restart content (some new_content) =
      let (w1, failed) = overwrite_config new_content w in
      if failed then (w1, failure 500) else finish_routing w1 no_restart content

  module _ (ops : ConfigOps Object) where
    unfoldable pub save_edit : World → Bool → Text → Edit → World × RoutingResponse
    unfolding write_routing
    save_edit w no_restart content (refused code) = (w, failure code)
    save_edit w no_restart content (edited config) =
        write_routing w no_restart content (ops.marshal config)

    unfoldable pub route_parsed :
        World → RoutingRequest → Text → Option Object → World × RoutingResponse
    unfolding save_edit edit_routing
    route_parsed w req content none = (w, failure 500)
    route_parsed w req content (some config) =
        save_edit w req.no_restart content (edit_routing config req)

    unfoldable pub route_content : RoutingRequest → World × Option Text → World × RoutingResponse
    unfolding route_parsed
    route_content req (w, none) = (w, failure 500)
    route_content req (w, some content) = route_parsed w req content (ops.unmarshal content)

    -- manageRouting, once the body is decoded and the path of the configuration is found.
    unfoldable pub manage_routing : World → RoutingRequest → World × RoutingResponse
    unfolding route_content read_config
    manage_routing w req = route_content req (read_config w)

    unfoldable pub routing_of : Option Object → Option (Option Object)
    routing_of none = none
    routing_of (some config) = some (object_at (text "routing") config)

    -- getRouting: none for an error, or the routing, null if there is none.
    unfoldable pub get_routing : World → Option (Option Object)
    unfolding read_config routing_of
    get_routing w = elim (read_config w).1 [
      | none ↦ none
      | some content ↦ routing_of (ops.unmarshal content)
    ]
