-- ===== src/Transaction/Tests.antt =====
-- A driver that counts connections and commits, and runs of transactions on it.
use toasty_mgr.Prelude.{
  ℕ, ◌+◌, ◌≡◌, ◌↔◌, refl, Bool, true, [], ◌∷◌, codes, ok, err, ltb, arith, if◌then◌else◌, IsUnique,
  text_has_eq,
}
use toasty_mgr.Prelude.Action.{Action}
use toasty_mgr.Transaction.{
  TxError, condition_failed, Driver, trans_with_retry, trans, attempts, judge, finish,
  ensure_unique_codes, get_txs,
}
use toasty_mgr.Transaction.Retry.{IsIsolated, OneCommit, trans_with_retry-OneCommit}
use toasty_mgr.Transaction.Attempts.{CountsConnects, Connects, trans_with_retry-Connects}
use toasty_mgr.Transaction.Codes.{ensure_unique_codes_iff, get_txs-Got, Got}

-- The number of commits and of connections.
abbrev Counts : Type 0
Counts = ℕ × ℕ

abbrev commits : Counts → ℕ
commits w = w.0

abbrev connects : Counts → ℕ
connects w = w.1

abbrev counting : Driver Counts (Unit {0})
counting = record {
  connect = λ _ w. (ok tt, (w.0, w.1 + 1));
  begin = λ _ w. (ok tt, w);
  commit = λ _ w. (ok tt, (w.0 + 1, w.1));
  rollback = λ _ w. (ok tt, w);
}

-- Fails until the third connection.
abbrev third_time : Unit {0} → Action Counts TxError ℕ
third_time _ w = if ltb w.1 3 then (err condition_failed, w) else (ok 42, w)

abbrev always : TxError → Counts → Bool × Counts
always _ w = (true, w)

counting-IsIsolated : IsIsolated commits counting
counting-IsIsolated = record {
  connect_law = λ code w. refl;
  begin_law = λ code w. refl;
  rollback_law = λ tx w. refl;
}

third_time-keeps : (tx : Unit {0}) (w : Counts) → commits (third_time tx w).1 ≡ commits w
third_time-keeps tx w = ground arith

third_time-connects : (tx : Unit {0}) (w : Counts) → connects (third_time tx w).1 ≡ connects w + 0
third_time-connects tx w = ground arith

counting-CountsConnects : CountsConnects connects counting
counting-CountsConnects = record {
  connect_law = λ code w. refl;
  begin_law = λ code w. omega arith;
  commit_law = λ tx w. omega arith;
  rollback_law = λ tx w. omega arith;
}

third_time_succeeds :
    trans_with_retry counting (codes "base") 3 always third_time (0, 0) ≡ (ok 42, (1, 3))
unfolding trans_with_retry attempts trans judge finish
third_time_succeeds = refl

trans_with_retry-OneCommit_example :
    OneCommit counting third_time
      (codes "base")
      commits
      0
      (trans_with_retry counting (codes "base") 3 always third_time (0, 0))
trans_with_retry-OneCommit_example =
    trans_with_retry-OneCommit commits counting counting-IsIsolated third_time third_time-keeps
      always (λ e w. refl) (codes "base") 3 (0, 0)

trans_with_retry-Connects_example :
    Connects connects counting counting-CountsConnects third_time third_time-connects always
      (λ e w. refl)
      2
      (0, 0)
      (trans_with_retry counting (codes "base") 2 always third_time (0, 0))
trans_with_retry-Connects_example =
    trans_with_retry-Connects connects counting counting-CountsConnects third_time
      third_time-connects always (λ e w. refl) (codes "base") 2 (0, 0)

ensure_unique_codes_iff_example :
    (ensure_unique_codes (codes "sys" ∷ codes "base" ∷ []) ≡ ok tt)
    ↔ IsUnique (codes "sys" ∷ codes "base" ∷ [])
ensure_unique_codes_iff_example = ensure_unique_codes_iff (codes "sys" ∷ codes "base" ∷ [])

get_txs-Got_example :
    Got counting
      (codes "sys" ∷ codes "base" ∷ [])
      ([], (0, 0))
      (get_txs counting (codes "sys" ∷ codes "base" ∷ []) ([], (0, 0)))
get_txs-Got_example = get_txs-Got counting (codes "sys" ∷ codes "base" ∷ []) ([], (0, 0))
