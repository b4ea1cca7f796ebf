-- ===== src/Handler/Transaction/Config.antt =====
-- The actions that leave the configuration alone.
use mmw_agent.Base.{◌≡◌, refl, ◌∙◌, inl, inr, Option, none, some, Text, text_eq, nat_eq, Bool-cases}
use mmw_agent.Handler.Transaction.{
  prepared, committed, Meta, TxnDir, World, Response, attempt, fails, read_config,
  load_config_txn_meta, write_dir, save_config_txn_meta,
}
use mmw_agent.Handler.Transaction.Actions.{
  ConfigOps, TxnRequest, prepare_again, stage_files, stage_candidate, stage_parsed, prepare_new,
  prepare, remove_file, commit, remove_dir, abort, status,
}
use mmw_agent.Handler.Transaction.Steps.{
  on_ok-holds, on_some-holds, unless-holds, if-holds, write_dir-config,
}

-- The configuration is as in that world.
pub record Keeps (w : World) (r : World × Response) : Type 0 where
  pub same : r.0.config ≡ w.config

module _ {ℓ} {C : Type ℓ} (ops : ConfigOps C) where
  stage_files-Keeps :
      (w0 w : World) (req : TxnRequest) (candidate : Text)
      → w.config ≡ w0.config
      → Keeps w0 (stage_files ops w req candidate)
  unfolding stage_files read_config attempt save_config_txn_meta
  stage_files-Keeps w0 w req candidate same =
      let id = req.operation_id in
      let w2 = (attempt (read_config w).0).0 in
      let set_meta : Text → TxnDir → TxnDir = λ current d. record d {
        meta = some (record {
          operation_id = id;
          old_hash = ops.hash current;
          new_hash = ops.hash candidate;
          state = prepared;
        });
      } in
      on_some-holds (Keeps w0) (read_config w) 500 _ (record { same = same })
        (λ current _.
          let set_backup : TxnDir → TxnDir = λ d. record d { backup = some current } in
          let set_staged : TxnDir → TxnDir = λ d. record d { staged = some candidate } in
          let w3 = (write_dir id set_backup w2).0 in
          let w4 = (write_dir id set_staged w3).0 in
          let same3 = write_dir-config w2 id set_backup ∙ same in
          let same4 = write_dir-config w3 id set_staged ∙ same3 in
          unless-holds (Keeps w0) _ 409 _ _ (record { same = same })
            (λ _.
              on_ok-holds (Keeps w0) (attempt (read_config w).0) 500 _ (record { same = same })
                (λ _.
                  on_ok-holds (Keeps w0) (write_dir id set_backup w2) 500 _
                    (record { same = same3 })
                    (λ _.
                      on_ok-holds (Keeps w0) (write_dir id set_staged w3) 500 _
                        (record { same = same4 })
                        (λ _.
                          on_ok-holds (Keeps w0) (write_dir id (set_meta current) w4) 500 _
                            (record { same = write_dir-config w4 id (set_meta current) ∙ same4 })
                            (λ _. record {
                              same = write_dir-config w4 id (set_meta current) ∙ same4;
                            }))))))

  stage_candidate-Keeps :
      (w0 w : World) (req : TxnRequest) (c : Option Text)
      → w.config ≡ w0.config
      → Keeps w0 (stage_candidate ops w req c)
  unfolding stage_candidate
  stage_candidate-Keeps w0 w req none same = record { same = same }
  stage_candidate-Keeps w0 w req (some c) same =
      unless-holds (Keeps w0) _ 400 _ _ (record { same = same })
        (λ _. stage_files-Keeps w0 w req c same)

  stage_parsed-Keeps :
      (w0 w : World) (req : TxnRequest) (c : Option C)
      → w.config ≡ w0.config
      → Keeps w0 (stage_parsed ops w req c)
  unfolding stage_parsed
  stage_parsed-Keeps w0 w req none same = record { same = same }
  stage_parsed-Keeps w0 w req (some c) same =
      unless-holds (Keeps w0) _ 400 _ _ (record { same = same })
        (λ _. stage_candidate-Keeps w0 w req (ops.marshal (ops.dedupe c)) same)

  prepare_new-Keeps :
      (w0 w : World) (req : TxnRequest) (m : Option Meta)
      → w.config ≡ w0.config
      → Keeps w0 (prepare_new ops w req m)
  unfolding prepare_new prepare_again
  prepare_new-Keeps w0 w req none same = stage_parsed-Keeps w0 w req (ops.unmarshal req.config) same
  prepare_new-Keeps w0 w req (some existing) same =
      if-holds (Keeps w0) _ _ _ (λ _. record { same = same }) (λ _. record { same = same })

  prepare-Keeps : (w : World) (req : TxnRequest) → Keeps w (prepare ops w req)
  unfolding prepare load_config_txn_meta attempt
  prepare-Keeps w req =
      let loaded = load_config_txn_meta req.operation_id w in
      unless-holds (Keeps w) _ 400 _ _ (record { same = refl })
        (λ _. prepare_new-Keeps w loaded.0 req loaded.1 refl)

  commit-Keeps : (w : World) (id : Text) → Keeps w (commit ops w id)
  unfolding commit load_config_txn_meta attempt read_config save_config_txn_meta remove_file
  commit-Keeps w id =
      on_some-holds (Keeps w) (load_config_txn_meta id w) 404 _ (record { same = refl })
        (λ meta _.
          let w2 = (read_config (load_config_txn_meta id w).0).0 in
          let set_meta : TxnDir → TxnDir =
            λ d. record d { meta = some (record meta { state = committed }) } in
          let no_backup : TxnDir → TxnDir = λ d. record d { backup = none } in
          let no_staged : TxnDir → TxnDir = λ d. record d { staged = none } in
          let w3 = (write_dir id set_meta w2).0 in
          let w4 = (write_dir id no_backup w3).0 in
          unless-holds (Keeps w) _ 409 _ _ (record { same = refl })
            (λ _.
              unless-holds (Keeps w) _ 409 _ _ (record { same = refl })
                (λ _.
                  on_ok-holds (Keeps w) (write_dir id set_meta w2) 500 _
                    (record { same = write_dir-config w2 id set_meta })
                    (λ _. record {
                      same =
                          write_dir-config w4 id no_staged
                          ∙ write_dir-config w3 id no_backup
                          ∙ write_dir-config w2 id set_meta;
                    }))))

remove_dir-config : (w : World) (id : Text) → (remove_dir id w).0.config ≡ w.config
unfolding remove_dir attempt
remove_dir-config w id = elim (Bool-cases (fails w.outcomes)) [
  | inl failed ↦ rw failed refl
  | inr done ↦ rw done refl
]

abort-Keeps : (w : World) (id : Text) → Keeps w (abort w id)
unfolding abort load_config_txn_meta attempt
abort-Keeps w id =
    on_some-holds (Keeps w) (load_config_txn_meta id w) 404 _ (record { same = refl })
      (λ meta _.
        let w1 = (load_config_txn_meta id w).0 in
        unless-holds (Keeps w) _ 409 _ _ (record { same = refl })
          (λ _.
            on_ok-holds (Keeps w) (remove_dir id w1) 500 _
              (record { same = remove_dir-config w1 id })
              (λ _. record { same = remove_dir-config w1 id })))

status-Keeps : (w : World) (id : Text) → Keeps w (status w id)
unfolding status load_config_txn_meta attempt
status-Keeps w id =
    on_some-holds (Keeps w) (load_config_txn_meta id w) 404 _ (record { same = refl })
      (λ meta _. record { same = refl })

-- Prepare, commit, abort and status leave the configuration alone, whatever fails.
pub config_untouched {ℓ} :
    {C : Type ℓ} (ops : ConfigOps C) (w : World) (req : TxnRequest) (id : Text)
    → ((prepare ops w req).0.config ≡ w.config)
      × ((commit ops w id).0.config ≡ w.config)
      × ((abort w id).0.config ≡ w.config)
      × ((status w id).0.config ≡ w.config)
config_untouched ops w req id = (
  (prepare-Keeps ops w req).same,
  (commit-Keeps ops w id).same,
  (abort-Keeps w id).same,
  (status-Keeps w id).same,
)
