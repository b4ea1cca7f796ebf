-- ===== src/Handler/Transaction/Retry.antt =====
-- A preparation that is sent twice.
use mmw_agent.Base.{
  ◌≡◌, refl, ap, ◌∙◌, inl, inr, true, false, Option, none, some, [], arith, Text, text_eq, nat_eq,
  ◌==◌, if◌then◌else◌, Bool-cases,
}
use mmw_agent.Base.Dict.{Dict, lookup, insert, lookup-insert}
use mmw_agent.Handler.Transaction.{
  prepared, Meta, TxnDir, World, failure, success, attempt, fails, or_empty, dir_of, set_dir,
  read_config, load_config_txn_meta, write_dir, save_config_txn_meta, bytes_of, on_ok, on_some,
  unless,
}
use mmw_agent.Handler.Transaction.Actions.{
  ConfigOps, TxnRequest, is_activated, is_prepared, prepare_again, stage_files, stage_candidate,
  stage_parsed, prepare_new, prepare,
}
use mmw_agent.Base.Strings.{is_blank}

-- A world where nothing fails.
abbrev pub sound : Option Text → Dict Text TxnDir → Option Text → World
sound config dirs running = record {
  config = config;
  dirs = dirs;
  running = running;
  outcomes = [];
}

dir_of-insert :
    (config running : Option Text) (dirs : Dict Text TxnDir) (id : Text) (d : TxnDir)
    → dir_of (sound config (insert id d dirs) running) id ≡ d
unfolding dir_of or_empty
dir_of-insert config running dirs id d =
    let found : lookup id (insert id d dirs) ≡ some d = lookup-insert id id d dirs ∙ ground arith in
    ap or_empty found

module _ {ℓ} {C : Type ℓ} (ops : ConfigOps C) (config running : Option Text)
    (dirs : Dict Text TxnDir) (req : TxnRequest) (parsed : C) (candidate : Text)
    (filled : is_blank req.config ≡ false) (free : req.expected_current_hash ≡ [])
    (reads : ops.unmarshal req.config ≡ some parsed)
    (unique : ops.unique_clients (ops.dedupe parsed) ≡ true)
    (writes : ops.marshal (ops.dedupe parsed) ≡ some candidate)
    (good : ops.xray_test candidate ≡ true) where
  abbrev made : Meta
  made = record {
    operation_id = req.operation_id;
    old_hash = ops.hash (bytes_of config);
    new_hash = ops.hash candidate;
    state = prepared;
  }

  stage_result :
      (dirs' : Dict Text TxnDir) × ((stage_parsed ops
          (sound config dirs running)
          req
          (ops.unmarshal req.config))
        ≡ (sound config dirs' running, success prepared false))
      × (dir_of (sound config dirs' running) req.operation_id).meta ≡ some made
  unfolding stage_parsed stage_candidate stage_files unless on_some on_ok read_config attempt fails
      write_dir save_config_txn_meta set_dir dir_of text_eq or_empty
  stage_result = rw reads (
      rw unique (
        rw writes (
          rw good (
            rw free
              (_, refl, ap (λ d. d.meta) (dir_of-insert config running _ req.operation_id _))))))

  again_result :
      (dirs' : Dict Text TxnDir)
      → (dir_of (sound config dirs' running) req.operation_id).meta ≡ some made
      → (prepare ops (sound config dirs' running) req).1
        ≡ (if ops.hash candidate == ops.hash req.config then success prepared true else failure 409)
  unfolding prepare prepare_new prepare_again unless load_config_txn_meta attempt fails is_prepared
      is_activated
  again_result dirs' known = rw filled (
      rw (known, prepare_new)
        (elim (Bool-cases (ops.hash candidate == ops.hash req.config)) [
          | inl same ↦ rw same refl
          | inr other ↦ rw other refl
        ]))

  -- The first of two equal requests is accepted, where nothing fails and no hash is expected. The
  -- second is answered as a repetition if the candidate that was made of the text has the same hash
  -- as the text itself, and is refused as a conflict if not.
  pub prepare_twice :
      (dir_of (sound config dirs running) req.operation_id).meta ≡ none
      → ((prepare ops (sound config dirs running) req).1 ≡ success prepared false)
        × ((prepare ops (prepare ops (sound config dirs running) req).0 req).1 ≡ (
            if ops.hash candidate == ops.hash req.config
            then success prepared true
            else failure 409))
  unfolding prepare prepare_new unless load_config_txn_meta attempt fails
  prepare_twice absent =
      let (dirs', first, known) = stage_result in
      let once : prepare ops (sound config dirs running) req
          ≡ (sound config dirs' running, success prepared false) =
        rw filled (rw (absent, prepare_new) first) in
      (ap (λ r. r.1) once, ap (λ r. (prepare ops r.0 req).1) once ∙ again_result dirs' known)
