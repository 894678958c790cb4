-- ===== src/Transaction.antt =====
-- Transactions over several data sources (src/transaction.rs): `TcTxMgr` with the transactions that
-- it has opened, and the functions that run a callback in a transaction, once or with retries.
pub mod Tests
pub mod Codes
pub mod Retry
pub mod Attempts
use toasty_mgr.Prelude.{
  ℕ, zero, suc, Bool, true, false, not, ◌&&◌, Option, none, some, List, [], ◌∷◌, contains, any, ltb,
  Text, text_has_eq, if◌then◌else◌, Result, ok, err, ok_or, collect,
}
use toasty_mgr.Prelude.Action.{Action, pure, fail, lift, settled, ◌>>=◌, ◌>>◌, bail_when}
use toasty_mgr.Prelude.Map
use toasty_mgr.Prelude.Map.{Map}

-- The errors as `anyhow` carries them: `exhausted` is the context that the last error of a retrying
-- transaction gets, `with_context` any other context.
pub data TxError : Type 0 where
  duplicate_code : Text → TxError
  not_opened : Text → TxError
  no_attempts : TxError
  condition_failed : TxError
  other : Text → TxError
  with_context : Text → TxError → TxError
  exhausted : Text → ℕ → TxError → TxError

-- The error is a condition-failed error of the toasty crate.
abbrev pub is_condition_failed_cause : TxError → Bool
is_condition_failed_cause condition_failed = true
is_condition_failed_cause _ = false

-- `error.chain()`
unfoldable pub chain : TxError → List TxError
chain (with_context c e) = with_context c e ∷ chain e
chain (exhausted code n e) = exhausted code n e ∷ chain e
chain e = e ∷ []

unfoldable pub is_condition_failed : TxError → Bool
is_condition_failed e = any is_condition_failed_cause (chain e)

-- What the transactions are made of: a connection to a source (`TcMgr::get`), and the toasty
-- crate's `transaction`, `commit` and `rollback`. `World` is the state that they and the callbacks
-- work on.
pub record Driver (World Tx : Type 0) : Type 0 where
  pub connect : Text → Action World TxError (Unit {0})
  pub begin : Text → Action World TxError Tx
  pub commit : Tx → Action World TxError (Unit {0})
  pub rollback : Tx → Action World TxError (Unit {0})

unfoldable pub ensure_unique_codes : List Text → Result TxError (Unit {0})
ensure_unique_codes [] = ok tt
ensure_unique_codes (code ∷ codes) =
    let rest = ensure_unique_codes codes in
    if contains codes code then err (duplicate_code code) else rest

module _ {World Tx : Type 0} (d : Driver World Tx) where
  -- The transactions of a `TcTxMgr`, beside the world.
  abbrev pub Manager : Type 0
  Manager = Map Text Tx × World

  unfoldable pub begin_owned_tx : Text → Action World TxError Tx
  begin_owned_tx code = do d.connect code; d.begin code

  unfoldable pub use_tx : Text → Action Manager TxError (Unit {0})
  use_tx code (tx_map, w) =
      if Map.contains_key tx_map code
      then (ok tt, (tx_map, w))
      else (let (r, w') = begin_owned_tx code w in
          elim r [
            | ok tx ↦ (ok tt, (Map.insert tx_map code tx, w'))
            | err e ↦ (err e, (tx_map, w'))
          ])

  unfoldable pub use_txs : List Text → Action Manager TxError (Unit {0})
  use_txs [] = pure tt
  use_txs (code ∷ codes) = do use_tx code; use_txs codes

  -- `TcTxMgr::get`
  unfoldable pub opened_tx : Text → Map Text Tx → Result TxError Tx
  opened_tx code tx_map = ok_or (Map.get tx_map code) (not_opened code)

  unfoldable pub get_tx : Text → Action Manager TxError Tx
  get_tx code = do use_tx code; λ m. (opened_tx code m.0, m)

  -- The transactions of several codes at once. The references point into the map, so the codes must
  -- differ.
  unfoldable pub get_txs : List Text → Action Manager TxError (List Tx)
  get_txs codes = do
    lift (ensure_unique_codes codes)
    use_txs codes
    λ m. (collect (λ code. opened_tx code m.0) codes, m)

  unfoldable pub commit_all : Map Text Tx → Action World TxError (Unit {0})
  commit_all [] = pure tt
  commit_all ((_, tx) ∷ txs) = do d.commit tx; commit_all txs

  unfoldable pub rollback_all : Map Text Tx → Action World TxError (Unit {0})
  rollback_all [] = pure tt
  rollback_all ((_, tx) ∷ txs) = do d.rollback tx; rollback_all txs

  unfoldable pub coordinate : {T : Type 0} → Action Manager TxError T → Action World TxError T
  coordinate callback w =
      let (r, (tx_map, w')) = callback ([], w) in
      elim r [
        | ok value ↦ (commit_all tx_map >>= λ _. pure value) w'
        | err error ↦ (rollback_all tx_map >>= λ _. fail error) w'
      ]

  -- How a transaction ends, by what its callback returned.
  unfoldable pub finish : {T : Type 0} → Tx → Result TxError T → Action World TxError T
  finish tx (ok value) = do d.commit tx; pure value
  finish tx (err error) = do d.rollback tx; fail error

  unfoldable pub trans :
      {T : Type 0} → Text → (Tx → Action World TxError T) → Action World TxError T
  trans code callback = do
    d.connect code
    tx ← d.begin code
    result ← settled (callback tx)
    finish tx result

  -- After an attempt: its value is returned, its error too if it is not retried, and `next` is the
  -- next attempt, or the error of the last one.
  unfoldable pub judge :
      {T : Type 0}
      → (TxError → World → Bool × World)
      → (TxError → Action World TxError T)
      → Result TxError T
      → Action World TxError T
  judge should_retry next (ok value) w = (ok value, w)
  judge should_retry next (err error) w =
      let (retry, w') = should_retry error w in if retry then next error w' else (err error, w')

  -- The attempts, with `left` more after the first.
  unfoldable pub attempts :
      {T : Type 0}
      → Text
      → ℕ
      → (TxError → World → Bool × World)
      → (Tx → Action World TxError T)
      → ℕ
      → Action World TxError T
  attempts code max_attempts should_retry callback zero = do
    result ← settled (trans code callback)
    judge should_retry (λ error. fail (exhausted code max_attempts error)) result
  attempts code max_attempts should_retry callback (suc left) =
      let rest = attempts code max_attempts should_retry callback left in
      do result ← settled (trans code callback); judge should_retry (λ _. rest) result

  unfoldable pub trans_with_retry :
      {T : Type 0}
      → Text
      → ℕ
      → (TxError → World → Bool × World)
      → (Tx → Action World TxError T)
      → Action World TxError T
  trans_with_retry code zero should_retry callback = fail no_attempts
  trans_with_retry code (suc left) should_retry callback =
      attempts code (suc left) should_retry callback left

  unfoldable pub trans_on_condition_failed :
      {T : Type 0} → Text → ℕ → (Tx → Action World TxError T) → Action World TxError T
  trans_on_condition_failed code max_attempts callback =
      trans_with_retry code max_attempts (λ e w. (is_condition_failed e, w)) callback
