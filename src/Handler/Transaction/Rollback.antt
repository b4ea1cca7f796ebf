-- ===== src/Handler/Transaction/Rollback.antt =====
-- What a rollback that answers with success leaves behind, whatever fails on the way.
use mmw_agent.Base.{
  ◌≡◌, sym, ap, ◌∙◌, ◌≢◌, inl, inr, Bool, true, false, not, some, [], arith, Text, text_eq, nat_eq,
  ◌==◌, Option-cases,
}
use mmw_agent.Handler.Transaction.{
  TxnState, rolled_back, Meta, TxnDir, World, Response, failure, activate_failed, success, aborted,
  transaction, attempt, dir_of, read_config, read_file, load_config_txn_meta, write_config,
  write_dir, save_config_txn_meta, restart_xray, bytes_of, on_ok,
}
use mmw_agent.Handler.Transaction.Actions.{ConfigOps, finish_rollback, rollback}
use mmw_agent.Handler.Transaction.Steps.{
  on_ok-holds, on_ok-cases, on_some-holds, unless-holds, if-holds, write_dir-config,
  write_config-done, restart_xray-config, load_config_txn_meta-found, read_config-found,
}

module _ {ℓ} {C : Type ℓ} (ops : ConfigOps C) where
  -- What a rollback that answers with success has reached.
  unfoldable pub Back : World → Text → World × Response → Type 0
  Back w id (w', success state again) =
      (meta : Meta) × ((dir_of w id).meta ≡ some meta)
      × (ops.hash (bytes_of w'.config) ≡ meta.old_hash)
  Back w id (w', failure code) = Unit
  Back w id (w', activate_failed back) = Unit
  Back w id (w', aborted) = Unit
  Back w id (w', transaction m) = Unit

  record RollbackGives (w : World) (id : Text) (r : World × Response) : Type 0 where
    gives : Back w id r

  finish_rollback-gives :
      (w0 w : World) (id : Text) (meta : Meta)
      → (dir_of w0 id).meta ≡ some meta
      → ops.hash (bytes_of w.config) ≡ meta.old_hash
      → RollbackGives w0 id (finish_rollback w id meta)
  unfolding finish_rollback save_config_txn_meta Back
  finish_rollback-gives w0 w id meta known back =
      let set_meta : TxnDir → TxnDir =
        λ d. record d { meta = some (record meta { state = rolled_back }) } in
      on_ok-holds (RollbackGives w0 id) (write_dir id set_meta w) 500 _ (record { gives = tt })
        (λ _. record {
          gives = (
            meta,
            known,
            ap (λ c. ops.hash (bytes_of c)) (write_dir-config w id set_meta) ∙ back,
          );
        })

  rollback-gives :
      (w : World) (id : Text)
      → ((m : Meta) → (dir_of w id).meta ≡ some m → m.old_hash ≢ ops.hash [])
      → RollbackGives w id (rollback ops w id)
  unfolding rollback load_config_txn_meta read_file read_config attempt Back bytes_of
  rollback-gives w id had =
      let loaded = load_config_txn_meta id w in
      let w1 = loaded.0 in
      let file = (dir_of w1 id).backup in
      let w2 = (read_file file w1).0 in
      let w3 = (read_config w2).0 in
      let current = (read_config w2).1 in
      on_some-holds (RollbackGives w id) loaded 404 _ (record { gives = tt })
        (λ meta read.
          let known = load_config_txn_meta-found w id meta read in
          let back_already : (ops.hash (bytes_of current) == meta.old_hash) ≡ true
              → ops.hash (bytes_of current) ≡ meta.old_hash =
            λ e. ground (arith, e) in
          on_some-holds (RollbackGives w id) (read_file file w1) 409 _ (record { gives = tt })
            (λ backup found.
              let right_backup : not (ops.hash backup == meta.old_hash) ≡ false
                  → ops.hash backup ≡ meta.old_hash =
                λ e. ground (arith, e) in
              unless-holds (RollbackGives w id) (not (ops.hash backup == meta.old_hash)) 409 w2 _
                (record { gives = tt })
                (λ right.
                  if-holds (RollbackGives w id) (ops.hash (bytes_of current) == meta.old_hash) _
                    (on_ok (write_config backup w3) 500
                      (λ w4. on_ok (restart_xray w4) 500 (λ w5. finish_rollback w5 id meta)))
                    (λ same. elim (Option-cases current) [
                      | inl unread ↦ absurd (
                          had meta known
                            (sym (back_already same) ∙ ap (λ c. ops.hash (bytes_of c)) unread))
                      | inr (t, seen) ↦ finish_rollback-gives w w3 id meta known (
                          ap ops.hash (read_config-found w2 t seen)
                          ∙ sym (ap (λ c. ops.hash (bytes_of c)) seen)
                          ∙ back_already same)
                    ])
                    (λ _.
                      on_ok-cases (RollbackGives w id) (write_config backup w3) 500 _
                        (λ _. record { gives = tt })
                        (λ done.
                          on_ok-holds (RollbackGives w id) (restart_xray (write_config backup w3).0)
                            500 _ (record { gives = tt })
                            (λ _.
                              finish_rollback-gives w (restart_xray (write_config backup w3).0).0 id
                                meta known
                                (ap (λ c. ops.hash (bytes_of c))
                                    (restart_xray-config (write_config backup w3).0
                                      ∙ write_config-done w3 backup done)
                                  ∙ right_backup right)))))))

  -- A rollback that answers with success leaves a configuration with the hash of the one that was
  -- there at the preparation, whatever failed, if there was one.
  pub rollback_gives :
      (w : World) (id : Text) (s : TxnState) (again : Bool)
      → ((m : Meta) → (dir_of w id).meta ≡ some m → m.old_hash ≢ ops.hash [])
      → (rollback ops w id).1 ≡ success s again
      → (meta : Meta) × ((dir_of w id).meta ≡ some meta)
        × (ops.hash (bytes_of (rollback ops w id).0.config) ≡ meta.old_hash)
  unfolding Back
  rollback_gives w id s again had answer =
      coe 0 1 (i. Back w id ((rollback ops w id).0, answer i)) (rollback-gives w id had).gives
