-- ===== src/Handler/Transaction/Actions.antt =====
-- The handlers of internal/handler/xray_config_transaction.go by action. The JSON of a configuration,
-- its checks and the hash are parameters.
use mmw_agent.Base.{
  Bool, true, false, not, ◌&&◌, ◌||◌, Option, none, some, [], Text, text_eq, nat_eq, ◌==◌,
  if◌then◌else◌,
}
use mmw_agent.Base.Dict.{erase}
use mmw_agent.Base.Strings.{is_blank, to_lower}
use mmw_agent.Handler.Transaction.{
  TxnState, prepared, activated, committed, rolled_back, Meta, TxnDir, World, Response, failure,
  activate_failed, success, aborted, transaction, attempt, dir_of, read_config, read_file,
  load_config_txn_meta, write_config, write_dir, save_config_txn_meta, restart_xray, bytes_of,
  on_ok, on_some, unless,
}

-- json.Unmarshal, the two calls of dedupeTaggedArrayInPlace, validateUniqueInboundClients,
-- json.MarshalIndent, runXrayTest and configContentHash.
pub record ConfigOps {ℓ} (C : Type ℓ) : Type ℓ where
  pub unmarshal : Text → Option C
  pub dedupe : C → C
  pub unique_clients : C → Bool
  pub marshal : C → Option Text
  pub xray_test : Text → Bool
  pub hash : Text → Text

pub record TxnRequest : Type 0 where
  pub operation_id : Text
  pub config : Text
  pub expected_current_hash : Text

unfoldable pub is_activated : TxnState → Bool
is_activated activated = true
is_activated prepared = false
is_activated committed = false
is_activated rolled_back = false

unfoldable pub is_prepared : TxnState → Bool
is_prepared prepared = true
is_prepared activated = false
is_prepared committed = false
is_prepared rolled_back = false

unfoldable pub is_committed : TxnState → Bool
is_committed committed = true
is_committed prepared = false
is_committed activated = false
is_committed rolled_back = false

-- The attempt to put the backup back, and whether it failed.
unfoldable pub restore_backup : World → Option Text → World × Bool
restore_backup w none = (w, true)
restore_backup w (some backup) =
    let (w1, failed) = write_config backup w in
    let started = restart_xray w1 in if failed then (w1, true) else started

-- The transaction is prepared again, and the answer tells whether the backup is back.
unfoldable pub undo_finish : World × Bool → Text → Meta → World × Response
undo_finish (w, failed) id meta =
    let (w', _) = save_config_txn_meta id (record meta { state = prepared }) w in
    (w', activate_failed (not failed))

unfoldable pub undo_activation : World → Text → Meta → World × Response
undo_activation w id meta =
    let (w1, backup) = read_file (dir_of w id).backup w in
    undo_finish (restore_backup w1 backup) id meta

unfoldable pub finish_rollback : World → Text → Meta → World × Response
finish_rollback w id meta =
    on_ok (save_config_txn_meta id (record meta { state = rolled_back }) w) 500
      (λ w1. (w1, success rolled_back false))

-- os.Remove with its error ignored.
unfoldable pub remove_file : Text → (TxnDir → TxnDir) → World → World
remove_file id change w = (write_dir id change w).0

-- The part of an activation that follows the write.
unfoldable pub start_candidate : World → Text → Meta → World × Response
start_candidate w id meta =
    let (w1, failed) = restart_xray w in
    if failed
    then undo_activation w1 id meta
    else on_ok (save_config_txn_meta id (record meta { state = activated }) w1) 500
        (λ w2. (w2, success activated false))

module _ {ℓ} {C : Type ℓ} (ops : ConfigOps C) where
  -- The answer where the operation exists.
  unfoldable pub prepare_again : World → TxnRequest → Meta → World × Response
  prepare_again w req existing =
      if existing.new_hash == ops.hash req.config
        && (is_prepared existing.state || is_activated existing.state)
      then (w, success existing.state true)
      else (w, failure 409)

  -- The part of prepare that writes the files.
  unfoldable pub stage_files : World → TxnRequest → Text → World × Response
  stage_files w req candidate =
      let id = req.operation_id in
      on_some (read_config w) 500 (λ w1 current.
        let old_hash = ops.hash current in
        let expected = req.expected_current_hash in
        unless (not (expected == []) && not (to_lower expected == to_lower old_hash)) 409 w1 (
          on_ok (attempt w1) 500 (λ w2.
            on_ok (write_dir id (λ d. record d { backup = some current }) w2) 500 (λ w3.
              on_ok (write_dir id (λ d. record d { staged = some candidate }) w3) 500 (λ w4.
                on_ok
                  (save_config_txn_meta id
                    (record {
                      operation_id = id;
                      old_hash = old_hash;
                      new_hash = ops.hash candidate;
                      state = prepared;
                    })
                    w4)
                  500 (λ w5. (w5, success prepared false)))))))

  unfoldable pub stage_candidate : World → TxnRequest → Option Text → World × Response
  stage_candidate w req none = (w, failure 400)
  stage_candidate w req (some candidate) =
      unless (not (ops.xray_test candidate)) 400 w (stage_files w req candidate)

  unfoldable pub stage_parsed : World → TxnRequest → Option C → World × Response
  stage_parsed w req none = (w, failure 400)
  stage_parsed w req (some parsed) =
      unless (not (ops.unique_clients (ops.dedupe parsed))) 400 w
        (stage_candidate w req (ops.marshal (ops.dedupe parsed)))

  unfoldable pub prepare_new : World → TxnRequest → Option Meta → World × Response
  prepare_new w req (some existing) = prepare_again w req existing
  prepare_new w req none = stage_parsed w req (ops.unmarshal req.config)

  unfoldable pub prepare : World → TxnRequest → World × Response
  prepare w req =
      let (w1, existing) = load_config_txn_meta req.operation_id w in
      unless (is_blank req.config) 400 w (prepare_new w1 req existing)

  unfoldable pub activate_prepared : World → Text → Meta → World × Response
  activate_prepared w id meta = on_some (read_config w) 500 (λ w1 current.
      unless (not (ops.hash current == meta.old_hash)) 409 w1 (
        on_some (read_file (dir_of w1 id).staged w1) 409 (λ w2 candidate.
          unless (not (ops.hash candidate == meta.new_hash)) 409 w2
            (on_ok (write_config candidate w2) 500 (λ w3. start_candidate w3 id meta)))))

  unfoldable pub activate : World → Text → World × Response
  activate w id = on_some (load_config_txn_meta id w) 404 (λ w1 meta.
      if is_activated meta.state
      then (w1, success meta.state true)
      else unless (not (is_prepared meta.state)) 409 w1 (activate_prepared w1 id meta))

  unfoldable pub rollback : World → Text → World × Response
  rollback w id = on_some (load_config_txn_meta id w) 404 (λ w1 meta.
      on_some (read_file (dir_of w1 id).backup w1) 409 (λ w2 backup.
        unless (not (ops.hash backup == meta.old_hash)) 409 w2 (
          let (w3, current) = read_config w2 in
          if ops.hash (bytes_of current) == meta.old_hash
          then finish_rollback w3 id meta
          else on_ok (write_config backup w3) 500
              (λ w4. on_ok (restart_xray w4) 500 (λ w5. finish_rollback w5 id meta)))))

  unfoldable pub commit : World → Text → World × Response
  commit w id = on_some (load_config_txn_meta id w) 404 (λ w1 meta.
      unless (not (is_activated meta.state) && not (is_committed meta.state)) 409 w1 (
        let (w2, current) = read_config w1 in
        unless (not (ops.hash (bytes_of current) == meta.new_hash)) 409 w2 (
          on_ok (save_config_txn_meta id (record meta { state = committed }) w2) 500 (λ w3.
            let w4 = remove_file id (λ d. record d { backup = none }) w3 in
            let w5 = remove_file id (λ d. record d { staged = none }) w4 in
            (w5, success committed false)))))

-- os.RemoveAll of the directory of an operation. A call that fails is taken to remove nothing.
unfoldable pub remove_dir : Text → World → World × Bool
remove_dir id w =
    let (w', failed) = attempt w in
    (if failed then w' else record w' { dirs = erase id w'.dirs }, failed)

unfoldable pub abort : World → Text → World × Response
abort w id = on_some (load_config_txn_meta id w) 404 (λ w1 meta.
    unless (is_activated meta.state) 409 w1 (on_ok (remove_dir id w1) 500 (λ w2. (w2, aborted))))

unfoldable pub status : World → Text → World × Response
status w id = on_some (load_config_txn_meta id w) 404 (λ w1 meta. (w1, transaction meta))
