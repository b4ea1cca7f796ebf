-- ===== src/Handler/Transaction/Outcomes.antt =====
-- What an activation leaves behind, whatever fails on the way.
use mmw_agent.Base.{
  ◌≡◌, refl, sym, ap, ◌∙◌, ◌⊎◌, inl, inr, Bool, true, false, not, Option, none, some, arith, Text,
  text_eq, nat_eq,
}
use mmw_agent.Base.Dict.{lookup}
use mmw_agent.Handler.Transaction.{
  prepared, activated, Meta, TxnDir, World, Response, failure, activate_failed, success, aborted,
  transaction, attempt, or_empty, dir_of, read_config, read_file, load_config_txn_meta,
  write_config, write_dir, save_config_txn_meta, restart_xray, bytes_of, unless,
}
use mmw_agent.Handler.Transaction.Actions.{
  ConfigOps, is_activated, is_prepared, restore_backup, undo_finish, undo_activation,
  start_candidate, activate_prepared, activate,
}
use mmw_agent.Handler.Transaction.Steps.{
  on_ok-holds, on_ok-cases, write_config-dir_of, on_some-holds, unless-holds, if-holds,
  write_dir-config, write_dir-running, write_config-done, write_config-failed, write_config-running,
  restart_xray-config, restart_xray-done, restart_xray-failed, load_config_txn_meta-found,
  read_file-found, read_config-found,
}
use mmw_agent.Handler.Transaction.Undo.{Left, restored, restore_backup-Left}

module _ {ℓ} {C : Type ℓ} (ops : ConfigOps C) where
  -- The candidate of the operation is in place and xray runs with it; it is the one that was staged
  -- for the configuration that was there.
  pub record Installed (w : World) (id : Text) (w' : World) : Type 0 where
    pub meta : Meta
    pub candidate : Text
    pub known : (dir_of w id).meta ≡ some meta
    pub staged : (dir_of w id).staged ≡ some candidate
    pub intact : ops.hash candidate ≡ meta.new_hash
    pub unchanged : ops.hash (bytes_of w.config) ≡ meta.old_hash
    pub in_place : w'.config ≡ some candidate
    pub started : w'.running ≡ some candidate

  -- The backup of the operation is in place and xray runs with it.
  pub record Restored (w : World) (id : Text) (w' : World) : Type 0 where
    pub backup : Text
    pub saved : (dir_of w id).backup ≡ some backup
    pub in_place : w'.config ≡ some backup
    pub started : w'.running ≡ some backup

  -- The activation and its rollback failed: of the candidate that was staged for the configuration
  -- that was there, and of the backup, this is left.
  pub record Abandoned (w : World) (id : Text) (w' : World) : Type 0 where
    pub meta : Meta
    pub candidate : Text
    pub known : (dir_of w id).meta ≡ some meta
    pub staged : (dir_of w id).staged ≡ some candidate
    pub intact : ops.hash candidate ≡ meta.new_hash
    pub unchanged : ops.hash (bytes_of w.config) ≡ meta.old_hash
    pub left : Left w id candidate w'.config w'.running

  unfoldable pub Gives : World → Text → World × Response → Type 0
  Gives w id (w', failure code) =
      ((w'.config ≡ w.config) × (w'.running ≡ w.running)) ⊎ Installed w id w'
  Gives w id (w', success state false) = Installed w id w'
  Gives w id (w', success state true) = (w'.config ≡ w.config) × (w'.running ≡ w.running)
  Gives w id (w', activate_failed true) = Restored w id w'
  Gives w id (w', activate_failed false) = Abandoned w id w'
  Gives w id (w', aborted) = ⊥
  Gives w id (w', transaction m) = ⊥

  pub record ActivateGives (w : World) (id : Text) (r : World × Response) : Type 0 where
    pub gives : Gives w id r

  restore_backup-Restored :
      (w0 w : World) (id : Text) (backup : Option Text)
      → ((b : Text) → backup ≡ some b → (dir_of w0 id).backup ≡ some b)
      → (restore_backup w backup).1 ≡ false
      → Restored w0 id (restore_backup w backup).0
  unfolding restore_backup
  restore_backup-Restored w0 w id none saved fine = ground (arith, fine)
  restore_backup-Restored w0 w id (some b) saved fine =
      let (there, started) = restored w b fine in
      record { backup = b; saved = saved b refl; in_place = there; started = started }

  undo_finish-gives :
      (w0 : World) (r : World × Bool) (id : Text) (meta : Meta)
      → (r.1 ≡ false → Restored w0 id r.0)
      → (r.1 ≡ true
          → (v : World) → v.config ≡ r.0.config
          → v.running ≡ r.0.running
          → Abandoned w0 id v)
      → ActivateGives w0 id (undo_finish r id meta)
  unfolding undo_finish Gives save_config_txn_meta
  undo_finish-gives w0 (w, true) id meta back lost =
      let set_meta : TxnDir → TxnDir =
        λ d. record d { meta = some (record meta { state = prepared }) } in
      record {
        gives =
            lost refl (write_dir id set_meta w).0 (write_dir-config w id set_meta)
              (write_dir-running w id set_meta);
      }
  undo_finish-gives w0 (w, false) id meta back lost =
      let b = back refl in
      let set_meta : TxnDir → TxnDir =
        λ d. record d { meta = some (record meta { state = prepared }) } in
      record {
        gives = record {
          backup = b.backup;
          saved = b.saved;
          in_place = write_dir-config w id set_meta ∙ b.in_place;
          started = write_dir-running w id set_meta ∙ b.started;
        };
      }

  undo-gives :
      (w0 w : World) (id candidate : Text) (meta : Meta)
      → (dir_of w id).backup ≡ (dir_of w0 id).backup
      → Left w0 id candidate w.config w.running
      → ((v : World) → Left w0 id candidate v.config v.running → Abandoned w0 id v)
      → ActivateGives w0 id (undo_activation w id meta)
  unfolding undo_activation read_file attempt
  undo-gives w0 w id candidate meta same left abandoned =
      let file = (dir_of w id).backup in
      let (w1, backup) = read_file file w in
      let saved : (b : Text) → backup ≡ some b → (dir_of w0 id).backup ≡ some b =
        λ b read. sym same ∙ read_file-found w file b read in
      undo_finish-gives w0 (restore_backup w1 backup) id meta
        (λ fine. restore_backup-Restored w0 w1 id backup saved fine)
        (λ failed v config running. abandoned v (
          coe 0 1 (i. Left w0 id candidate (sym config i) (sym running i))
            (restore_backup-Left w0 w1 id candidate backup left saved failed)))

  start-gives :
      (w0 w : World) (id : Text) (meta : Meta) (candidate : Text)
      → w.config ≡ some candidate
      → (dir_of w id).backup ≡ (dir_of w0 id).backup
      → w.running ≡ w0.running
      → ((v : World) → v.config ≡ some candidate → v.running ≡ some candidate → Installed w0 id v)
      → ((v : World) → Left w0 id candidate v.config v.running → Abandoned w0 id v)
      → ActivateGives w0 id (start_candidate w id meta)
  unfolding start_candidate restart_xray attempt dir_of save_config_txn_meta Gives
  start-gives w0 w id meta candidate there kept same installed abandoned =
      let w1 = (restart_xray w).0 in
      let set_meta : TxnDir → TxnDir =
        λ d. record d { meta = some (record meta { state = activated }) } in
      let saved = (write_dir id set_meta w1).0 in
      if-holds (ActivateGives w0 id) (restart_xray w).1 _ _
        (λ failed.
          undo-gives w0 w1 id candidate meta kept
            (record {
              in_place = inl (restart_xray-config w ∙ there);
              runs = ground (arith, restart_xray-failed w failed, same, there);
            })
            abandoned)
        (λ fine.
          let done =
            installed saved (write_dir-config w1 id set_meta ∙ restart_xray-config w ∙ there)
              (write_dir-running w1 id set_meta ∙ restart_xray-done w fine ∙ there) in
          on_ok-holds (ActivateGives w0 id) (write_dir id set_meta w1) 500 _
            (record { gives = inr done }) (λ _. record { gives = done }))

  activate_prepared-gives :
      (w0 w : World) (id : Text) (meta : Meta)
      → w.config ≡ w0.config
      → w.running ≡ w0.running
      → w.dirs ≡ w0.dirs
      → (dir_of w0 id).meta ≡ some meta
      → ActivateGives w0 id (activate_prepared ops w id meta)
  unfolding activate_prepared read_config read_file attempt Gives dir_of
  activate_prepared-gives w0 w id meta same runs same_dirs known =
      let w1 = (read_config w).0 in
      let file = (dir_of w1 id).staged in
      let w2 = (read_file file w1).0 in
      let dirs_backup : (dir_of w2 id).backup ≡ (dir_of w0 id).backup =
        ap (λ ds. (or_empty (lookup id ds)).backup) same_dirs in
      let dirs_staged : file ≡ (dir_of w0 id).staged =
        ap (λ ds. (or_empty (lookup id ds)).staged) same_dirs in
      let staged : (t : Text) → (read_file file w1).1 ≡ some t → (dir_of w0 id).staged ≡ some t =
        λ t found. sym dirs_staged ∙ read_file-found w1 file t found in
      let current_hash : (t : Text)
          → (read_config w).1 ≡ some t
          → ops.hash (bytes_of w0.config) ≡ ops.hash t =
        λ t read. ap ops.hash (ap bytes_of (sym same) ∙ read_config-found w t read) in
      on_some-holds (ActivateGives w0 id) (read_config w) 500 _
        (record { gives = inl (same, runs) })
        (λ current read.
          unless-holds (ActivateGives w0 id) _ 409 _ _ (record { gives = inl (same, runs) })
            (λ right.
              on_some-holds (ActivateGives w0 id) (read_file file w1) 409 _
                (record { gives = inl (same, runs) })
                (λ candidate found.
                  unless-holds (ActivateGives w0 id) _ 409 _ _ (record { gives = inl (same, runs) })
                    (λ intact.
                      on_ok-cases (ActivateGives w0 id) (write_config candidate w2) 500 _
                        (λ failed. record {
                          gives = inl (
                            write_config-failed w2 candidate failed ∙ same,
                            write_config-running w2 candidate ∙ runs,
                          );
                        })
                        (λ done.
                          start-gives w0 (write_config candidate w2).0 id meta candidate
                            (write_config-done w2 candidate done)
                            (ap (λ d. d.backup) (write_config-dir_of w2 candidate id) ∙ dirs_backup)
                            (write_config-running w2 candidate ∙ runs)
                            (λ v there started. record {
                              meta = meta;
                              candidate = candidate;
                              known = known;
                              staged = staged candidate found;
                              intact = ground (arith, intact);
                              unchanged = current_hash current read ∙ ground (arith, right);
                              in_place = there;
                              started = started;
                            })
                            (λ v left. record {
                              meta = meta;
                              candidate = candidate;
                              known = known;
                              staged = staged candidate found;
                              intact = ground (arith, intact);
                              unchanged = current_hash current read ∙ ground (arith, right);
                              left = left;
                            }))))))

  already_gives :
      (w0 w : World) (id : Text) (meta : Meta)
      → w.config ≡ w0.config
      → w.running ≡ w0.running
      → ActivateGives w0 id (w, success meta.state true)
  unfolding Gives
  already_gives w0 w id meta same runs = record { gives = (same, runs) }

  -- A successful activation has put the staged candidate in the place of the configuration it was
  -- prepared for, and xray runs with it; a repeated one changes neither. A failed start that reports
  -- a rollback has put the backup back, and xray runs with that; one that reports none leaves the
  -- candidate or the backup in place, and xray stopped or running as before or with one of both. Any
  -- other failure leaves the configuration and xray as they were, or comes after the candidate was
  -- installed.
  pub activate-Gives : (w : World) (id : Text) → Gives w id (activate ops w id)
  unfolding activate load_config_txn_meta attempt Gives
  activate-Gives w id =
      let w1 = (load_config_txn_meta id w).0 in
      (on_some-holds (ActivateGives w id) (load_config_txn_meta id w) 404 _
        (record { gives = inl (refl, refl) })
        (λ meta read.
          if-holds (ActivateGives w id) (is_activated meta.state) _
            (unless (not (is_prepared meta.state)) 409 w1 (activate_prepared ops w1 id meta))
            (λ already. already_gives w w1 id meta refl refl)
            (λ _.
              unless-holds (ActivateGives w id) (not (is_prepared meta.state)) 409 w1 _
                (record { gives = inl (refl, refl) })
                (λ _.
                  activate_prepared-gives w w1 id meta refl refl refl
                    (load_config_txn_meta-found w id meta read))))).gives
