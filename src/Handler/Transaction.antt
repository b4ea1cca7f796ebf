-- ===== src/Handler/Transaction.antt =====
-- internal/handler/xray_config_transaction.go: prepare, activate, rollback, commit, abort and status.
-- Every call of the file system or of RestartXray that can fail takes its outcome from a list, so
-- that a theorem about every list is one about every failure.
pub mod Actions
pub mod Steps
pub mod Config
pub mod Undo
pub mod Outcomes
pub mod Rollback
pub mod Retry
pub mod Instance
pub mod Tests
use mmw_agent.Base.{
  ℕ, zero, suc, ◌+◌, ◌-◌, ◌*◌, ◌/◌, ◌%◌, ◌^◌, ◌≤◌, ◌<◌, ◌≡◌, refl, sym, ap, ◌∙◌, ◌≢◌, ◌↔◌, ◌⊎◌, inl,
  inr, ite, Bool, true, false, not, ◌&&◌, ◌||◌, Option, none, some, List, [], ◌∷◌, ◌++◌, map, arith,
  Text, text, text_eq, nat_eq, ◌==◌, ltb, leb, if◌then◌else◌, ltb→lt, lt→ltb, le→ltb, Bool-cases,
  Option-cases, length, take, drop, All, length-append, length-drop, take-append, drop-append,
  length-take, take-drop, drop-length-take, Eq, contains,
}
use mmw_agent.Base.Int.{ℤ, pos, negsuc, is_pos, is_neg, ltb_ℤ, add_one, sub_one, to_ℕ}
use mmw_agent.Base.Dict.{
  Dict, lookup, insert, erase, lookup-cons, lookup-insert, lookup-erase, keys, is_some,
  contains-keys,
}

pub data TxnState : Type 0 where
  prepared activated committed rolled_back : TxnState

-- xrayConfigTxnMeta, without the times and the constant path.
pub record Meta : Type 0 where
  pub operation_id : Text
  pub old_hash : Text
  pub new_hash : Text
  pub state : TxnState

-- The directory of one operation; a file that does not exist is none.
pub record TxnDir : Type 0 where
  pub meta : Option Meta
  pub staged : Option Text
  pub backup : Option Text

abbrev pub empty_dir : TxnDir
empty_dir = record { meta = none; staged = none; backup = none }

-- `outcomes` tells of each call to come whether it fails; none of them fails after the list.
-- `running` is the configuration that xray runs with, none if it is stopped.
pub record World : Type 0 where
  pub config : Option Text
  pub dirs : Dict Text TxnDir
  pub running : Option Text
  pub outcomes : List Bool

-- A status of an error, what a failed activation says of its rollback, the new state and whether it
-- was there before, the answer of abort, and that of status.
pub data Response : Type 0 where
  failure : ℕ → Response
  activate_failed : Bool → Response
  success : TxnState → Bool → Response
  aborted : Response
  transaction : Meta → Response

unfoldable pub fails : List Bool → Bool
fails [] = false
fails (o ∷ os) = o

-- Takes the next outcome.
unfoldable pub attempt : World → World × Bool
unfolding fails
attempt w = (record w { outcomes = drop 1 w.outcomes }, fails w.outcomes)

unfoldable pub or_empty : Option TxnDir → TxnDir
or_empty none = empty_dir
or_empty (some d) = d

unfoldable pub dir_of : World → Text → TxnDir
unfolding or_empty
dir_of w id = or_empty (lookup id w.dirs)

unfoldable pub set_dir : Text → TxnDir → World → World
set_dir id d w = record w { dirs = insert id d w.dirs }

-- The bytes of a file, none if it does not exist.
unfoldable pub bytes_of : Option Text → Text
bytes_of none = []
bytes_of (some t) = t

-- os.ReadFile of the configuration: a failure, or the bytes, which are none if there is no file.
unfoldable pub read_config : World → World × Option Text
unfolding attempt bytes_of
read_config w =
    let (w', failed) = attempt w in (w', if failed then none else some (bytes_of w.config))

-- os.ReadFile of a file of the operation.
unfoldable pub read_file : Option Text → World → World × Option Text
unfolding attempt
read_file file w = let (w', failed) = attempt w in (w', if failed then none else file)

unfoldable pub load_config_txn_meta : Text → World → World × Option Meta
unfolding attempt dir_of
load_config_txn_meta id w =
    let (w', failed) = attempt w in (w', if failed then none else (dir_of w id).meta)

-- writeFileAtomic: the file is as before or has all of the content. The result tells of a failure.
unfoldable pub write_config : Text → World → World × Bool
unfolding attempt
write_config content w =
    let (w', failed) = attempt w in
    (if failed then w' else record w' { config = some content }, failed)

unfoldable pub write_dir : Text → (TxnDir → TxnDir) → World → World × Bool
unfolding attempt dir_of set_dir
write_dir id change w =
    let (w', failed) = attempt w in
    (if failed then w' else set_dir id (change (dir_of w id)) w', failed)

unfoldable pub save_config_txn_meta : Text → Meta → World → World × Bool
unfolding write_dir
save_config_txn_meta id meta w = write_dir id (λ d. record d { meta = some meta }) w

-- RestartXray, which starts xray with the file of the configuration. After an error xray may still
-- run as before, may be stopped, or may have been started all the same, as when the command times
-- out: the two outcomes after that of the call tell which.
unfoldable pub restart_xray : World → World × Bool
unfolding attempt
restart_xray w =
    let (w1, failed) = attempt w in
    let (w2, stopped) = attempt w1 in
    let (w3, started) = attempt w2 in
    (
      record w {
        running =
            if failed
            then (if stopped then none else (if started then w.config else w.running))
            else w.config;
        outcomes = if failed then w3.outcomes else w1.outcomes;
      },
      failed,
    )

-- The early returns: a status for a failed call, for a missing value and for a condition.
unfoldable pub on_ok : World × Bool → ℕ → (World → World × Response) → World × Response
on_ok (w, failed) code next = if failed then (w, failure code) else next w

unfoldable pub on_some {ℓ} :
    {A : Type ℓ} → World × Option A → ℕ → (World → A → World × Response) → World × Response
on_some (w, none) code next = (w, failure code)
on_some (w, some a) code next = next w a

unfoldable pub unless : Bool → ℕ → World → World × Response → World × Response
unless bad code w next = if bad then (w, failure code) else next
