-- ===== src/Transaction/Retry.antt =====
-- What transactions do to the committed data, once and with retries.
use mathlib.Core.Path.{subst}
use toasty_mgr.Prelude.{
  ℕ, zero, suc, ◌≡◌, refl, sym, ◌∙◌, Bool, true, false, Text, Result, ok, err, if◌then◌else◌,
}
use toasty_mgr.Prelude.Action.{Action, pure, fail, settled, returned, ◌>>=◌}
use toasty_mgr.Transaction.{
  TxError, exhausted, Driver, finish, trans, judge, attempts, trans_with_retry,
}

-- The call leaves the committed data alone.
abbrev Keeps : {World Data A : Type 0} → (World → Data) → Action World TxError A → Type 0
Keeps {World} committed m = (w : World) → committed (m w).1 ≡ committed w

module _ {World Tx Data : Type 0} (committed : World → Data) where
  -- What is documented of transactions: connecting, beginning and rolling back change no committed
  -- data. What a commit does is left open.
  pub record IsIsolated (d : Driver World Tx) : Type 0 where
    pub connect_law : (code : Text) → Keeps committed (d.connect code)
    pub begin_law : (code : Text) → Keeps committed (d.begin code)
    pub rollback_law : (tx : Tx) → Keeps committed (d.rollback tx)

module _ {World Tx T : Type 0} (d : Driver World Tx) (callback : Tx → Action World TxError T)
    (code : Text) where
  -- From the world `w`, one run of the callback in a new transaction `tx`, with a value.
  abbrev pub Ran : World → Tx → T → World → Type 0
  Ran w tx value after =
      (connected : World) × (begun : World) × (d.connect code w ≡ (ok tt, connected))
      × (d.begin code connected ≡ (ok tx, begun))
      × (callback tx begun ≡ (ok value, after))

  module _ {Data : Type 0} (committed : World → Data) where
    -- The committed data, from `start` on: they are the same, or a commit of such a run failed on
    -- them, and they are what that left.
    pub data Trail (start : Data) : Data → Type 0 where
      here : Trail start start
      failed_commit :
          (w after left : World) (tx : Tx) (value : T) (error : TxError)
          → Trail start (committed w)
          → Ran w tx value after
          → d.commit tx after ≡ (err error, left)
          → Trail start (committed left)

    -- A value comes from one run of the callback, whose transaction was committed. Other changes of
    -- the data are those of failed commits.
    abbrev pub OneCommit : Data → Result TxError T × World → Type 0
    OneCommit start (ok value, w') =
        (w : World) × (tx : Tx) × (after : World) × Trail start (committed w)
        × Ran w tx value after
        × (d.commit tx after ≡ (ok tt, w'))
    OneCommit start (err _, w') = Trail start (committed w')

module _ {World Tx Data : Type 0} (committed : World → Data) (d : Driver World Tx)
    (law : IsIsolated committed d) {T : Type 0} (callback : Tx → Action World TxError T)
    (works_inside : (tx : Tx) → Keeps committed (callback tx)) where
  One : Text → Data → Result TxError T × World → Type 0
  One code start r = OneCommit d callback code committed start r

  finish-OneCommit :
      (code : Text) (start : Data) (w connected begun after : World) (tx : Tx)
      (r : Result TxError T)
      → Trail d callback code committed start (committed w)
      → committed after ≡ committed w
      → d.connect code w ≡ (ok tt, connected)
      → d.begin code connected ≡ (ok tx, begun)
      → callback tx begun ≡ (r, after)
      → One code start (finish d tx r after)
  unfolding finish One
  finish-OneCommit code start w connected begun after tx (ok value) trail same c b e =
      go (d.commit tx after) refl
    where
      go :
          (r : Result TxError (Unit {0}) × World)
          → d.commit tx after ≡ r
          → One code start ((returned r >>= λ _. pure value) after)
      go (ok _, w') k = (w, tx, after, trail, (connected, begun, c, b, e), k)
      go (err x, w') k = failed_commit w after w' tx value x trail (connected, begun, c, b, e) k
  finish-OneCommit code start w connected begun after tx (err error) trail same c b e =
      go (d.rollback tx after) (law.rollback_law tx after)
    where
      go :
          (r : Result TxError (Unit {0}) × World)
          → committed r.1 ≡ committed after
          → One code start ((returned r >>= λ _. fail error) after)
      go (ok _, w') l = subst (Trail d callback code committed start) (sym (l ∙ same)) trail
      go (err x, w') l = subst (Trail d callback code committed start) (sym (l ∙ same)) trail

  begin-OneCommit :
      (code : Text) (start : Data) (w connected : World) (r : Result TxError Tx × World)
      → Trail d callback code committed start (committed w)
      → d.connect code w ≡ (ok tt, connected)
      → d.begin code connected ≡ r
      → committed r.1 ≡ committed w
      → One code start
          ((returned r >>= λ tx. settled (callback tx) >>= λ result. finish d tx result) connected)
  unfolding One
  begin-OneCommit code start w connected (ok tx, begun) trail c b same =
      finish-OneCommit code start w connected begun (callback tx begun).1 tx (callback tx begun).0
        trail (works_inside tx begun ∙ same) c b refl
  begin-OneCommit code start w connected (err x, w') trail c b same =
      subst (Trail d callback code committed start) (sym same) trail

  trans-OneCommit :
      (code : Text) (start : Data) (w : World)
      → Trail d callback code committed start (committed w)
      → One code start (trans d code callback w)
  unfolding trans One
  trans-OneCommit code start w trail = go (d.connect code w) refl (law.connect_law code w)
    where
      go :
          (r : Result TxError (Unit {0}) × World)
          → d.connect code w ≡ r
          → committed r.1 ≡ committed w
          → One code start (
              (returned r >>= λ _.
              d.begin code >>= λ tx. settled (callback tx) >>= λ result. finish d tx result)
                w)
      go (ok _, w') c same =
          begin-OneCommit code start w w' (d.begin code w') trail c refl
            (law.begin_law code w' ∙ same)
      go (err x, w') c same = subst (Trail d callback code committed start) (sym same) trail

  module _ (should_retry : TxError → World → Bool × World)
      (only_looks : (e : TxError) (w : World) → committed (should_retry e w).1 ≡ committed w) where
    judge-OneCommit :
        (code : Text) (start : Data) (next : TxError → Action World TxError T)
        (r : Result TxError T × World)
        → One code start r
        → ((e : TxError) (w : World)
            → Trail d callback code committed start (committed w)
            → One code start (next e w))
        → One code start (judge d should_retry next r.0 r.1)
    unfolding judge One
    judge-OneCommit code start next (ok value, w) h rest = h
    judge-OneCommit code start next (err e, w) h rest =
        go (should_retry e w)
          (subst (Trail d callback code committed start) (sym (only_looks e w)) h)
      where
        go :
            (c : Bool × World)
            → Trail d callback code committed start (committed c.1)
            → One code start (if c.0 then next e c.1 else (err e, c.1))
        go (true, w') k = rest e w' k
        go (false, w') k = k

    attempts-OneCommit :
        (code : Text) (max_attempts left : ℕ) (start : Data) (w : World)
        → Trail d callback code committed start (committed w)
        → One code start (attempts d code max_attempts should_retry callback left w)
    unfolding attempts One
    attempts-OneCommit code max_attempts zero start w h =
        judge-OneCommit code start (λ error. fail (exhausted code max_attempts error))
          (trans d code callback w) (trans-OneCommit code start w h) (λ e w' k. k)
    attempts-OneCommit code max_attempts (suc left) start w h =
        judge-OneCommit code start (λ _. attempts d code max_attempts should_retry callback left)
          (trans d code callback w) (trans-OneCommit code start w h)
          (λ e w' k. attempts-OneCommit code max_attempts left start w' k)

    -- When connecting, beginning, rolling back, the callback and the test of the errors commit
    -- nothing, a retrying transaction that returns a value got it from a new transaction in which the
    -- callback ran exactly once, and whose commit, straight after that run, succeeded and ended the
    -- call. The committed data before that transaction, and at the end of a call that fails, are
    -- those at the start, but for what commits that failed have left.
    pub trans_with_retry-OneCommit :
        (code : Text) (max_attempts : ℕ) (w : World)
        → OneCommit d callback code committed
            (committed w)
            (trans_with_retry d code max_attempts should_retry callback w)
    unfolding trans_with_retry One
    trans_with_retry-OneCommit code zero w = here
    trans_with_retry-OneCommit code (suc left) w =
        attempts-OneCommit code (suc left) left (committed w) w here
