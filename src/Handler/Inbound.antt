-- ===== src/Handler/Inbound.antt =====
-- manageInboundClient and manageInboundSniffingExclude on the file.
use mmw_agent.Base.{
  ℕ, Bool, not, Option, none, some, List, [], ◌∷◌, Text, text_eq, nat_eq, ◌==◌, if◌then◌else◌,
}
use mmw_agent.Json.{Object}
use mmw_agent.Handler.Config.Manage.{
  Change, refused, no_change, store, ClientAction, edit_client, exclude_domains,
}
use mmw_agent.Handler.Transaction.{World, attempt, read_config, write_config}
use mmw_agent.Handler.Transaction.Actions.{ConfigOps}

-- A status of an error; nothing to do; the new file, with whether the running xray has it too.
pub data InboundResponse : Type 0 where
  failure : ℕ → InboundResponse
  no_op : InboundResponse
  persisted : Bool → InboundResponse

-- `runtime_fails` tells whether the running xray refuses the replacement.
module _ (ops : ConfigOps Object) (runtime_fails : Bool) where
  -- The file is written under another name and renamed.
  unfoldable pub replace_file : World → Option Text → World × InboundResponse
  unfolding attempt write_config
  replace_file w none = (w, failure 500)
  replace_file w (some content) =
      let (w1, no_tmp) = attempt w in
      let (w2, no_rename) = write_config content w1 in
      if no_tmp
      then (w1, failure 500)
      else (if no_rename then (w2, failure 500) else (w2, persisted (not runtime_fails)))

  unfoldable pub apply_change : World → Change → World × InboundResponse
  unfolding replace_file
  apply_change w (refused code) = (w, failure code)
  apply_change w no_change = (w, no_op)
  apply_change w (store config) = replace_file w (ops.marshal config)

  unfoldable pub change_parsed : World → (Object → Change) → Option Object → World × InboundResponse
  unfolding apply_change
  change_parsed w edit none = (w, failure 500)
  change_parsed w edit (some config) = apply_change w (edit config)

  unfoldable pub change_content : (Object → Change) → World × Option Text → World × InboundResponse
  unfolding change_parsed
  change_content edit (w, none) = (w, failure 500)
  change_content edit (w, some content) = change_parsed w edit (ops.unmarshal content)

  -- manageInboundClient, once the path of the configuration is found.
  unfoldable pub manage_client :
      World → Text → ClientAction → Option Object → World × InboundResponse
  unfolding change_content edit_client read_config text_eq
  manage_client w tag action none = (w, failure 400)
  manage_client w tag action (some client) =
      if tag == []
      then (w, failure 400)
      else change_content (λ config. edit_client config tag action client) (read_config w)

  -- manageInboundSniffingExclude, likewise.
  unfoldable pub manage_excludes : World → Text → List Text → World × InboundResponse
  unfolding change_content exclude_domains read_config text_eq
  manage_excludes w tag [] = (w, failure 400)
  manage_excludes w tag (d ∷ ds) =
      if tag == []
      then (w, failure 400)
      else change_content (λ config. exclude_domains config tag (d ∷ ds)) (read_config w)
