-- ===== src/Handler/Transaction/Tests.antt =====
-- Runs of the transaction with a toy configuration, and the laws at them.
use mmw_agent.Handler.Transaction.{failure}
use mmw_agent.Base.{◌++◌, if◌then◌else◌, ◌==◌}
use mmw_agent.Base.{
  ◌≡◌, refl, ap, ◌∙◌, true, false, Option, none, some, [], ◌∷◌, arith, Text, text, text_eq, nat_eq,
}
use mmw_agent.Base.Dict.{lookup, insert}
use mmw_agent.Handler.Transaction.{
  prepared, rolled_back, Meta, TxnDir, World, activate_failed, success, attempt, fails, or_empty,
  dir_of, set_dir, read_config, read_file, load_config_txn_meta, write_config, write_dir,
  save_config_txn_meta, restart_xray, bytes_of, on_ok, on_some, unless,
}
use mmw_agent.Handler.Transaction.Actions.{
  ConfigOps, TxnRequest, undo_finish, start_candidate, is_activated, is_prepared, prepare_again,
  stage_files, stage_candidate, stage_parsed, prepare_new, prepare, restore_backup, undo_activation,
  activate_prepared, activate, finish_rollback, rollback, commit, abort, status,
}
use mmw_agent.Base.Strings.{is_space, is_blank, to_lower}
use mmw_agent.Handler.Transaction.Config.{config_untouched}
use mmw_agent.Handler.Transaction.Retry.{prepare_twice}
use mmw_agent.Handler.Transaction.Outcomes.{Gives, activate-Gives}
use mmw_agent.Handler.Transaction.Rollback.{rollback_gives}

-- A configuration is its text, its hash the text with a mark.
abbrev toy : ConfigOps Text
toy = record {
  unmarshal = λ t. some t;
  dedupe = λ c. c;
  unique_clients = λ c. true;
  marshal = λ c. some c;
  xray_test = λ t. true;
  hash = λ t. 35 ∷ t;
}

abbrev start : World
start = record { config = some (text "old"); dirs = []; running = some (text "old"); outcomes = [] }

abbrev request : TxnRequest
request = record { operation_id = text "op-00001"; config = text "new"; expected_current_hash = [] }

abbrev op_dir : TxnDir
op_dir = record {
  meta = some (record {
    operation_id = text "op-00001";
    old_hash = text "#old";
    new_hash = text "#new";
    state = prepared;
  });
  staged = some (text "new");
  backup = some (text "old");
}

abbrev staged_world : World
staged_world = record start { dirs = (text "op-00001", op_dir) ∷ [] }

prepare_run : prepare toy start request ≡ (staged_world, success prepared false)
unfolding prepare unless is_blank is_space nat_eq prepare_new load_config_txn_meta lookup
    stage_parsed stage_candidate stage_files on_some read_config text_eq on_ok write_dir
    save_config_txn_meta insert is_activated is_prepared prepare_again to_lower attempt bytes_of
    dir_of fails or_empty set_dir
prepare_run = refl

-- The restart with the new configuration fails, the one with the old does not.
undo_run :
    ((activate toy
        (record staged_world { outcomes = false ∷ false ∷ false ∷ false ∷ true ∷ [] })
        (text "op-00001")).0.config
      ≡ some (text "old"))
    × ((activate toy
          (record staged_world { outcomes = false ∷ false ∷ false ∷ false ∷ true ∷ [] })
          (text "op-00001")).1
        ≡ activate_failed true)
unfolding activate activate_prepared start_candidate undo_activation undo_finish restore_backup
    read_file write_config restart_xray on_some on_ok unless load_config_txn_meta lookup text_eq
    is_activated is_prepared read_config save_config_txn_meta write_dir insert attempt bytes_of
    dir_of fails or_empty set_dir
undo_run = (refl, refl)

rollback_run :
    (rollback toy (activate toy staged_world (text "op-00001")).0 (text "op-00001")).0.config
    ≡ some (text "old")
unfolding rollback finish_rollback activate activate_prepared start_candidate undo_activation
    undo_finish restore_backup read_file write_config restart_xray on_some on_ok unless
    load_config_txn_meta lookup text_eq is_activated is_prepared read_config save_config_txn_meta
    write_dir insert attempt bytes_of dir_of fails or_empty set_dir
rollback_run = refl

config_untouched_example :
    ((prepare toy start request).0.config ≡ start.config)
    × ((commit toy start (text "x")).0.config ≡ start.config)
    × ((abort start (text "x")).0.config ≡ start.config)
    × ((status start (text "x")).0.config ≡ start.config)
config_untouched_example = config_untouched toy start request (text "x")

activate-Gives_example :
    Gives toy staged_world (text "op-00001") (activate toy staged_world (text "op-00001"))
activate-Gives_example = activate-Gives toy staged_world (text "op-00001")

abbrev hash_of : Option Meta → Text
hash_of none = text "#old"
hash_of (some m) = m.old_hash

rollback_gives_example :
    (meta : Meta) × ((dir_of staged_world (text "op-00001")).meta ≡ some meta)
    × (35 ∷ bytes_of (rollback toy staged_world (text "op-00001")).0.config ≡ meta.old_hash)
unfolding rollback finish_rollback activate activate_prepared start_candidate undo_activation
    undo_finish restore_backup read_file write_config restart_xray on_some on_ok unless
    load_config_txn_meta lookup text_eq is_activated is_prepared read_config save_config_txn_meta
    write_dir insert attempt bytes_of dir_of fails or_empty set_dir
rollback_gives_example =
    rollback_gives toy staged_world (text "op-00001") rolled_back false
      (λ m known same. ground (arith, ap hash_of known ∙ same)) refl

-- A configuration whose normal form differs from the text that was sent.
abbrev spaced : ConfigOps Text
spaced = record toy { marshal = λ c. some (c ++ (10 ∷ [])) }

prepare_twice_example :
    ((prepare spaced start request).1 ≡ success prepared false)
    × ((prepare spaced (prepare spaced start request).0 request).1 ≡ (
        if 35 ∷ 110 ∷ 101 ∷ 119 ∷ 10 ∷ [] == text "#new"
        then success prepared true
        else failure 409))
unfolding is_blank is_space nat_eq dir_of or_empty lookup
prepare_twice_example =
    prepare_twice spaced (some (text "old")) (some (text "old")) [] request (text "new")
      (110 ∷ 101 ∷ 119 ∷ 10 ∷ []) refl refl refl refl refl refl refl
