-- ===== src/Transaction/Attempts.antt =====
-- How often a retrying transaction connects.
use mathlib.Core.Bool.{false≢true}
use toasty_mgr.Prelude.{
  ℕ, zero, suc, ◌+◌, ◌≤◌, ◌<◌, ◌≡◌, refl, sym, ◌∙◌, Bool, true, false, Text, Result, ok, err, arith,
  if◌then◌else◌,
}
use toasty_mgr.Prelude.Action.{Action, pure, fail, settled, returned, ◌>>=◌}
use toasty_mgr.Transaction.{
  TxError, exhausted, no_attempts, Driver, finish, trans, judge, attempts, trans_with_retry,
}

-- The call adds `n` to the count.
abbrev pub Adds : {World A : Type 0} → (World → ℕ) → ℕ → Action World TxError A → Type 0
Adds {World = World} count n m = (w : World) → count (m w).1 ≡ count w + n

module _ {World A B : Type 0} (count : World → ℕ) where
  bind-Adds :
      (m : Action World TxError A) (f : A → Action World TxError B) (n : ℕ)
      → Adds count n m
      → ((a : A) → Adds count 0 (f a))
      → Adds count n (m >>= f)
  bind-Adds m f n h k w = go (m w) (h w)
    where
      go :
          (r : Result TxError A × World)
          → count r.1 ≡ count w + n
          → count ((returned r >>= f) w).1 ≡ count w + n
      go (ok a, w') e = omega (arith, k a w')
      go (err x, w') e = e

-- `connects` counts the calls of `TcMgr::get`.
pub record CountsConnects {World Tx : Type 0} (connects : World → ℕ) (d : Driver World Tx)
    : Type 0 where
  pub connect_law : (code : Text) → Adds connects 1 (d.connect code)
  pub begin_law : (code : Text) → Adds connects 0 (d.begin code)
  pub commit_law : (tx : Tx) → Adds connects 0 (d.commit tx)
  pub rollback_law : (tx : Tx) → Adds connects 0 (d.rollback tx)

module _ {World Tx T : Type 0} (connects : World → ℕ) (d : Driver World Tx)
    (law : CountsConnects connects d) (callback : Tx → Action World TxError T)
    (no_connect : (tx : Tx) → Adds connects 0 (callback tx)) where
  finish-Adds : (tx : Tx) (r : Result TxError T) → Adds connects 0 (finish d tx r)
  unfolding finish
  finish-Adds tx (ok value) =
      bind-Adds connects (d.commit tx) (λ _. pure value) 0 (law.commit_law tx) (λ _ w. omega arith)
  finish-Adds tx (err error) =
      bind-Adds connects (d.rollback tx) (λ _. fail error) 0 (law.rollback_law tx)
        (λ _ w. omega arith)

  trans-Adds : (code : Text) → Adds connects 1 (trans d code callback)
  unfolding trans
  trans-Adds code =
      bind-Adds connects (d.connect code)
        (λ _. d.begin code >>= λ tx. settled (callback tx) >>= finish d tx) 1 (law.connect_law code)
        (λ _.
          bind-Adds connects (d.begin code) (λ tx. settled (callback tx) >>= finish d tx) 0
            (law.begin_law code)
            (λ tx.
              bind-Adds connects (settled (callback tx)) (finish d tx) 0 (no_connect tx)
                (finish-Adds tx)))

  module _ (should_retry : TxError → World → Bool × World)
      (only_looks : (e : TxError) (w : World) → connects (should_retry e w).1 ≡ connects w) where
    -- At least one attempt and at most `most`, from a world with `before` attempts: and exactly
    -- `most` if every error is retried and there still is no value.
    abbrev Tried : ℕ → ℕ → Result TxError T × World → Type 0
    Tried before most (r, w) =
        (before < connects w)
        × (connects w ≤ before + most)
        × (((e : TxError) (w : World) → (should_retry e w).0 ≡ true)
            → (error : TxError) → r ≡ err error
            → connects w ≡ before + most)

    judge-Tried :
        (before left : ℕ) (next : TxError → Action World TxError T) (r : Result TxError T × World)
        → connects r.1 ≡ before + 1
        → ((e : TxError) (w : World) → connects w ≡ before + 1 → Tried before (suc left) (next e w))
        → Tried before (suc left) (judge d should_retry next r.0 r.1)
    unfolding judge
    judge-Tried before left next (ok value, w) h rest = (omega arith, omega arith, λ _ error e. cc)
    judge-Tried before left next (err e, w) h rest = go (should_retry e w) (only_looks e w) refl
      where
        go :
            (c : Bool × World)
            → connects c.1 ≡ connects w
            → (should_retry e w).0 ≡ c.0
            → Tried before (suc left) (if c.0 then next e c.1 else (err e, c.1))
        go (true, w') same k = rest e w' (same ∙ h)
        go (false, w') same k =
            (omega arith, omega arith, λ all error _. absurd (false≢true (sym k ∙ all e w)))

    attempts-Tried :
        (code : Text) (max_attempts left : ℕ) (w : World)
        → Tried (connects w) (suc left) (attempts d code max_attempts should_retry callback left w)
    unfolding attempts
    attempts-Tried code max_attempts zero w =
        judge-Tried (connects w) 0 (λ error. fail (exhausted code max_attempts error))
          (trans d code callback w) (trans-Adds code w)
          (λ e w' k. (omega arith, omega arith, λ _ error h. k))
    attempts-Tried code max_attempts (suc left) w =
        judge-Tried (connects w) (suc left)
          (λ _. attempts d code max_attempts should_retry callback left) (trans d code callback w)
          (trans-Adds code w)
          (λ e w' k.
            let (some_try, bound, all) = attempts-Tried code max_attempts left w' in
            (omega arith, omega arith, λ accepts error h. omega (arith, all accepts error h)))

    -- The connections of a whole call.
    abbrev pub Connects : ℕ → World → Result TxError T × World → Type 0
    Connects zero w r = r ≡ (err no_attempts, w)
    Connects (suc left) w r = Tried (connects w) (suc left) r

    -- With no attempts allowed the call fails before it connects. Otherwise it connects at least
    -- once and at most as often as attempts are allowed, and exactly that often if it fails
    -- although every error is retried.
    pub trans_with_retry-Connects :
        (code : Text) (max_attempts : ℕ) (w : World)
        → Connects max_attempts w (trans_with_retry d code max_attempts should_retry callback w)
    unfolding trans_with_retry
    trans_with_retry-Connects code zero w = refl
    trans_with_retry-Connects code (suc left) w = attempts-Tried code (suc left) left w
