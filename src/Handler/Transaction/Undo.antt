-- ===== src/Handler/Transaction/Undo.antt =====
-- The attempt of a failed activation to put the backup back.
use mmw_agent.Base.{
  ◌≡◌, refl, sym, ◌∙◌, ◌⊎◌, inl, inr, Bool, true, false, Option, none, some, arith, Text, text_eq,
  nat_eq, if◌then◌else◌, Bool-cases,
}
use mmw_agent.Handler.Transaction.{World, attempt, fails, dir_of, write_config, restart_xray}
use mmw_agent.Handler.Transaction.Actions.{restore_backup}
use mmw_agent.Handler.Transaction.Steps.{
  write_config-done, write_config-failed, write_config-running, restart_xray-config,
  restart_xray-failed,
}

-- What is left of a failed rollback, by the world before and the candidate: the candidate or the
-- backup is in place, and xray is stopped, or runs as before or with one of both.
pub record Left (w : World) (id candidate : Text) (config running : Option Text) : Type 0 where
  pub in_place :
      (config ≡ some candidate)
      ⊎ ((backup : Text) × ((dir_of w id).backup ≡ some backup) × (config ≡ some backup))
  pub runs :
      (running ≡ none)
      ⊎ ((running ≡ w.running) ⊎ ((running ≡ some candidate) ⊎ (running ≡ (dir_of w id).backup)))

-- One that succeeds has the backup in place and in use.
pub restored :
    (w : World) (backup : Text)
    → (restore_backup w (some backup)).1 ≡ false
    → ((restore_backup w (some backup)).0.config ≡ some backup)
      × ((restore_backup w (some backup)).0.running ≡ some backup)
unfolding restore_backup write_config restart_xray attempt
restored w backup fine = elim (Bool-cases (fails w.outcomes)) [
  | inl failed ↦ ground (arith, failed, fine)
  | inr done ↦ (ground (arith, done), ground (arith, done, fine))
]

-- What is left where the backup is not back.
pub restore_backup-Left :
    (w0 w : World) (id candidate : Text) (backup : Option Text)
    → Left w0 id candidate w.config w.running
    → ((b : Text) → backup ≡ some b → (dir_of w0 id).backup ≡ some b)
    → (restore_backup w backup).1 ≡ true
    → Left w0 id candidate (restore_backup w backup).0.config (restore_backup w backup).0.running
unfolding restore_backup
restore_backup-Left w0 w id candidate none left saved failed = left
restore_backup-Left w0 w id candidate (some b) left saved failed =
    let w1 = (write_config b w).0 in
    let kept : Bool → Type 0 = λ unwritten.
      let r = if unwritten then (w1, true) else restart_xray w1 in
      r.1 ≡ true → Left w0 id candidate r.0.config r.0.running in
    elim (Bool-cases (write_config b w).1) [
      | inl unwritten ↦
          coe 0 1 (i. kept (sym unwritten i))
            (λ _. record {
              in_place = ground (arith, write_config-failed w b unwritten, left.in_place);
              runs = ground (arith, write_config-running w b, left.runs);
            })
            failed
      | inr written ↦
          coe 0 1 (i. kept (sym written i))
            (λ unstarted. record {
              in_place =
                  inr (b, saved b refl, restart_xray-config w1 ∙ write_config-done w b written);
              runs = elim (restart_xray-failed w1 unstarted) [
                | inl stopped ↦ inl stopped
                | inr (inl same) ↦ ground (arith, same, write_config-running w b, left.runs)
                | inr (inr late) ↦
                    inr (inr (inr (late ∙ write_config-done w b written ∙ sym (saved b refl))))
              ];
            })
            failed
    ]
