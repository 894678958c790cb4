-- ===== src/Transaction/Codes.antt =====
-- Which transactions `TcTxMgr` opens.
use toasty_mgr.Prelude.{
  ap, All, ◌⊎◌, ◌≡◌, refl, List, [], ◌∷◌, Text, text_has_eq, Result, ok, err, collect, inl, inr,
  IsUnique, ◌↔◌, arith, none, some, Option-cases, Result-cases,
}
use toasty_mgr.Prelude.Action.{returned, ◌>>=◌}
use toasty_mgr.Prelude.Map
use toasty_mgr.Prelude.Map.{Map, get-insert, contains_key-none, contains_key-some}
use toasty_mgr.Transaction.{
  TxError, ensure_unique_codes, Driver, use_tx, use_txs, opened_tx, get_txs, Manager,
  begin_owned_tx,
}

-- A list of codes is accepted exactly when no code occurs twice.
pub ensure_unique_codes_iff :
    (codes : List Text) → (ensure_unique_codes codes ≡ ok tt) ↔ IsUnique codes
unfolding ensure_unique_codes
ensure_unique_codes_iff [] = (λ _. tt, λ _. refl)
ensure_unique_codes_iff (code ∷ codes) = ground (arith, ensure_unique_codes_iff codes)

-- Opened transactions stay in the map.
abbrev pub Kept : {Tx : Type 0} → Map Text Tx → Map Text Tx → Type 0
Kept {Tx = Tx} m m' = (code : Text) (tx : Tx) → Map.get m code ≡ some tx → Map.get m' code ≡ some tx

abbrev IsOpen : {Tx : Type 0} → Map Text Tx → Text → Type 0
IsOpen {Tx = Tx} m code = (tx : Tx) × (Map.get m code ≡ some tx)

-- The map has these transactions for these codes, one for each.
abbrev pub Holds : {Tx : Type 0} → Map Text Tx → List Text → List Tx → Type 0
Holds m [] [] = Unit
Holds m (code ∷ codes) (tx ∷ txs) = (Map.get m code ≡ some tx) × Holds m codes txs
Holds m _ _ = ⊥

module _ {World Tx : Type 0} (d : Driver World Tx) where
  abbrev Used : Text → Map Text Tx → Result TxError (Unit {0}) × Manager d → Type 0
  Used code before (ok _, (tx_map, w)) = Kept before tx_map × IsOpen tx_map code
  Used code before (err _, (tx_map, w)) = Kept before tx_map

  begun-Used :
      (code : Text) (tx_map : Map Text Tx) (r : Result TxError Tx × World)
      → Map.get tx_map code ≡ none
      → Used code tx_map (elim r.0 [
        | ok tx ↦ (ok tt, (Map.insert tx_map code tx, r.1))
        | err e ↦ (err e, (tx_map, r.1))
      ])
  begun-Used code tx_map (ok tx, w) new = (
    λ other old h. ground (
      arith,
      get-insert tx_map code tx other,
      text_has_eq.same_iff code other,
      ap (Map.get tx_map),
    ),
    (tx, ground (arith, get-insert tx_map code tx code, text_has_eq.same_iff code code)),
  )
  begun-Used code tx_map (err e, w) new = λ other old h. h

  use_tx-Used : (code : Text) (m : Manager d) → Used code m.0 (use_tx d code m)
  unfolding use_tx
  use_tx-Used code (tx_map, w) = elim (Option-cases (Map.get tx_map code)) [
    | inl new ↦
        rw (contains_key-none tx_map code new)
          (begun-Used code tx_map (begin_owned_tx d code w) new)
    | inr (tx, old) ↦ rw (contains_key-some tx_map code tx old) (λ other tx h. h, (tx, old))
  ]

  abbrev UsedAll : List Text → Map Text Tx → Result TxError (Unit {0}) × Manager d → Type 0
  UsedAll codes before (ok _, (tx_map, w)) = Kept before tx_map × All (IsOpen tx_map) codes
  UsedAll codes before (err _, (tx_map, w)) = Kept before tx_map

  use_txs-UsedAll : (codes : List Text) (m : Manager d) → UsedAll codes m.0 (use_txs d codes m)
  unfolding use_txs
  use_txs-UsedAll [] m = (λ code tx h. h, tt)
  use_txs-UsedAll (code ∷ codes) m =
      go (use_tx d code m) (use_tx-Used code m) (λ m. use_txs-UsedAll codes m)
    where
      later :
          (before between : Map Text Tx) (r : Result TxError (Unit {0}) × Manager d)
          → Kept before between
          → IsOpen between code
          → UsedAll codes between r
          → UsedAll (code ∷ codes) before r
      later before between (ok _, (tx_map, w)) k (tx, h) (kept, open_codes) =
          (λ c t e. kept c t (k c t e), ((tx, kept code tx h), open_codes))
      later before between (err _, (tx_map, w)) k h kept = λ c t e. kept c t (k c t e)

      go :
          (r : Result TxError (Unit {0}) × Manager d)
          → Used code m.0 r
          → ((m : Manager d) → UsedAll codes m.0 (use_txs d codes m))
          → UsedAll (code ∷ codes) m.0 ((returned r >>= λ _. use_txs d codes) m)
      go (ok _, (tx_map, w)) (kept, open_code) rest =
          later m.0 tx_map (use_txs d codes (tx_map, w)) kept open_code (rest (tx_map, w))
      go (err e, (tx_map, w)) kept rest = kept

  collect-Holds :
      (tx_map : Map Text Tx) (codes : List Text)
      → All (IsOpen tx_map) codes
      → (txs : List Tx) × (collect (λ code. opened_tx d code tx_map) codes ≡ ok txs)
        × Holds tx_map codes txs
  unfolding collect opened_tx
  collect-Holds tx_map [] h = ([], refl, tt)
  collect-Holds tx_map (code ∷ codes) ((tx, h), open_codes) =
      let (txs, e, holds) = collect-Holds tx_map codes open_codes in
      (tx ∷ txs, rw (h, e) refl, (h, holds))

  -- What `get_txs` returns.
  abbrev pub Got : List Text → Manager d → Result TxError (List Tx) × Manager d → Type 0
  Got codes m (ok txs, (tx_map, w)) = IsUnique codes × Kept m.0 tx_map × Holds tx_map codes txs
  Got codes m (err e, m') =
      Kept m.0 m'.0
      × (¬ IsUnique codes × (m' ≡ m) ⊎ IsUnique codes × (use_txs d codes m ≡ (err e, m')))

  used-Got :
      (codes : List Text) (m : Manager d) (r : Result TxError (Unit {0}) × Manager d)
      → IsUnique codes
      → use_txs d codes m ≡ r
      → UsedAll codes m.0 r
      → Got codes m ((returned r >>= λ _. λ m. (collect (λ code. opened_tx d code m.0) codes, m)) m)
  used-Got codes m (ok _, (tx_map, w)) unique e (kept, open_codes) =
      let (txs, found, holds) = collect-Holds tx_map codes open_codes in
      rw found (unique, kept, holds)
  used-Got codes m (err x, m') unique e kept = (kept, inr (unique, e))

  -- `get_txs` returns one transaction for each of its codes, which differ, each the one that the
  -- map then has for its code, and no transaction that was open is replaced. It fails only when a
  -- code occurs twice, and then does nothing, or when opening a transaction fails.
  pub get_txs-Got : (codes : List Text) (m : Manager d) → Got codes m (get_txs d codes m)
  unfolding get_txs
  get_txs-Got codes m = elim (Result-cases (ensure_unique_codes codes)) [
    | inl (_, good) ↦ rw good (
        used-Got codes m (use_txs d codes m) ((ensure_unique_codes_iff codes).0 good) refl
          (use_txs-UsedAll codes m))
    | inr (e, bad) ↦ rw bad (
      λ code tx h. h,
      inl (λ unique. (ground (arith, bad, (ensure_unique_codes_iff codes).1 unique)), refl),
    )
  ]
