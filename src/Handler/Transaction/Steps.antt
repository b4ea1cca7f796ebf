-- ===== src/Handler/Transaction/Steps.antt =====
-- What an early return and each step on the files does to a statement about the result.
use mmw_agent.Base.{
  ℕ, ◌≡◌, refl, ◌⊎◌, inl, inr, Bool, true, false, Option, none, some, arith, Text, text_eq, nat_eq,
  if◌then◌else◌, Bool-cases, drop, if-elim,
}
use mmw_agent.Handler.Transaction.{
  Meta, TxnDir, World, Response, failure, attempt, fails, dir_of, set_dir, read_config, read_file,
  load_config_txn_meta, write_config, write_dir, restart_xray, bytes_of, on_ok, on_some, unless,
}

-- A statement about the result of an action holds if it holds of each early return and of the rest.
module _ {ℓ} (Q : World × Response → Type ℓ) where
  pub on_ok-holds :
      (r : World × Bool) (code : ℕ) (next : World → World × Response)
      → Q (r.0, failure code)
      → (r.1 ≡ false → Q (next r.0))
      → Q (on_ok r code next)
  unfolding on_ok
  on_ok-holds (w, true) code next bad good = bad
  on_ok-holds (w, false) code next bad good = good refl

  pub on_ok-cases :
      (r : World × Bool) (code : ℕ) (next : World → World × Response)
      → (r.1 ≡ true → Q (r.0, failure code))
      → (r.1 ≡ false → Q (next r.0))
      → Q (on_ok r code next)
  unfolding on_ok
  on_ok-cases (w, true) code next bad good = bad refl
  on_ok-cases (w, false) code next bad good = good refl

  pub on_some-holds {κ} :
      {A : Type κ} (r : World × Option A) (code : ℕ) (next : World → A → World × Response)
      → Q (r.0, failure code)
      → ((a : A) → r.1 ≡ some a → Q (next r.0 a))
      → Q (on_some r code next)
  unfolding on_some
  on_some-holds (w, none) code next bad good = bad
  on_some-holds (w, some a) code next bad good = good a refl

  pub unless-holds :
      (b : Bool) (code : ℕ) (w : World) (next : World × Response)
      → Q (w, failure code)
      → (b ≡ false → Q next)
      → Q (unless b code w next)
  unfolding unless
  unless-holds true code w next bad good = bad
  unless-holds false code w next bad good = good refl

  pub if-holds :
      (b : Bool) (yes_result no_result : World × Response)
      → (b ≡ true → Q yes_result)
      → (b ≡ false → Q no_result)
      → Q (if b then yes_result else no_result)
  if-holds true yes_result no_result good bad = good refl
  if-holds false yes_result no_result good bad = bad refl

module _ (w : World) where
  pub write_dir-config :
      (id : Text) (change : TxnDir → TxnDir) → (write_dir id change w).0.config ≡ w.config
  unfolding write_dir attempt set_dir
  write_dir-config id change = elim (Bool-cases (fails w.outcomes)) [
    | inl failed ↦ rw failed refl
    | inr done ↦ rw done refl
  ]

  pub write_dir-running :
      (id : Text) (change : TxnDir → TxnDir) → (write_dir id change w).0.running ≡ w.running
  unfolding write_dir attempt set_dir
  write_dir-running id change = elim (Bool-cases (fails w.outcomes)) [
    | inl failed ↦ rw failed refl
    | inr done ↦ rw done refl
  ]

  pub write_config-done :
      (content : Text)
      → (write_config content w).1 ≡ false
      → (write_config content w).0.config ≡ some content
  unfolding write_config attempt
  write_config-done content done = rw done refl

  pub write_config-failed :
      (content : Text)
      → (write_config content w).1 ≡ true
      → (write_config content w).0.config ≡ w.config
  unfolding write_config attempt
  write_config-failed content failed = rw failed refl

  pub restart_xray-config : (restart_xray w).0.config ≡ w.config
  unfolding restart_xray attempt
  restart_xray-config = refl

  pub restart_xray-done : (restart_xray w).1 ≡ false → (restart_xray w).0.running ≡ w.config
  unfolding restart_xray attempt
  restart_xray-done done = rw done refl

  -- After a failed restart xray is stopped, runs as before or runs with the file.
  pub restart_xray-failed :
      (restart_xray w).1 ≡ true
      → ((restart_xray w).0.running ≡ none)
        ⊎ (((restart_xray w).0.running ≡ w.running) ⊎ ((restart_xray w).0.running ≡ w.config))
  unfolding restart_xray attempt
  restart_xray-failed failed = rw failed (
      if-elim (λ r. (r ≡ none) ⊎ ((r ≡ w.running) ⊎ (r ≡ w.config))) (fails (drop 1 w.outcomes)) _ _
        (λ _. inl refl)
        (λ _.
          if-elim (λ r. (r ≡ none) ⊎ ((r ≡ w.running) ⊎ (r ≡ w.config)))
            (fails (drop 1 (drop 1 w.outcomes))) _ _ (λ _. inr (inr refl)) (λ _. inr (inl refl))))

  pub write_config-running : (content : Text) → (write_config content w).0.running ≡ w.running
  unfolding write_config attempt
  write_config-running content = elim (Bool-cases (fails w.outcomes)) [
    | inl failed ↦ rw failed refl
    | inr done ↦ rw done refl
  ]

  -- What is read is what is there.
  pub load_config_txn_meta-found :
      (id : Text) (m : Meta) → (load_config_txn_meta id w).1 ≡ some m → (dir_of w id).meta ≡ some m
  unfolding load_config_txn_meta attempt
  load_config_txn_meta-found id m read = elim (Bool-cases (fails w.outcomes)) [
    | inl failed ↦ ground (arith, failed, read)
    | inr done ↦ ground (arith, done, read)
  ]

  pub read_file-found :
      (file : Option Text) (t : Text) → (read_file file w).1 ≡ some t → file ≡ some t
  unfolding read_file attempt
  read_file-found file t read = elim (Bool-cases (fails w.outcomes)) [
    | inl failed ↦ ground (arith, failed, read)
    | inr done ↦ ground (arith, done, read)
  ]

  pub read_config-found : (t : Text) → (read_config w).1 ≡ some t → bytes_of w.config ≡ t
  unfolding read_config attempt bytes_of
  read_config-found t read = elim (Bool-cases (fails w.outcomes)) [
    | inl failed ↦ ground (arith, failed, read)
    | inr done ↦ ground (arith, done, read)
  ]

  pub write_config-dir_of : (content id : Text) → dir_of (write_config content w).0 id ≡ dir_of w id
  unfolding write_config attempt dir_of
  write_config-dir_of content id = elim (Bool-cases (fails w.outcomes)) [
    | inl failed ↦ rw failed refl
    | inr done ↦ rw done refl
  ]
