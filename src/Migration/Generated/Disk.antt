-- ===== src/Migration/Generated/Disk.antt =====
-- What `write_generated` relies on from the file system: the contents of the files, as they can be
-- read, and what the operations change in them.
use toasty_mgr.Prelude.{◌≡◌, ◌≢◌, false, Option, none, some, Text, Result, ok, err}
use toasty_mgr.Prelude.Action.{Action}
use toasty_mgr.Migration.Types.{FilePath, Error}
use toasty_mgr.Migration.Generated.{Tools}

-- Where an action ends: with `Q` of its value and the state, or in an error with `R` of the state.
abbrev pub Ends : {S A : Type 0} → (A → S → Type 0) → (S → Type 0) → Result Error A × S → Type 0
Ends Q R (ok a, s) = Q a s
Ends Q R (err _, s) = R s

pub Ends-bind :
    {S A B : Type 0} (P : A → S → Type 0) (Q : B → S → Type 0) (R : S → Type 0)
    (f : A → Action S Error B) (r : Result Error A × S)
    → Ends P R r
    → ((a : A) (s : S) → P a s → Ends Q R (f a s))
    → Ends Q R (let (x, s) = r in elim x [ ok a ↦ f a s | err y ↦ (err y, s) ])
Ends-bind P Q R f (ok a, s) p k = k a s p
Ends-bind P Q R f (err x, s) p k = p

pub Ends-post :
    {S A : Type 0} (P Q : A → S → Type 0) (R : S → Type 0)
    → ((a : A) (s : S) → P a s → Q a s)
    → (r : Result Error A × S) → Ends P R r
    → Ends Q R r
Ends-post P Q R f (ok a, s) p = f a s p
Ends-post P Q R f (err x, s) p = p

module _ {Fs Schema : Type 0} (t : Tools Fs Schema) (read : Fs → FilePath → Option Text) where
  -- The text is there, or the write failed and may have left anything at the path.
  abbrev pub Writes : FilePath → Text → Fs → Result Error (Unit {0}) × Fs → Type 0
  Writes p text fs (ok _, fs') =
      (read fs' p ≡ some text) × ((q : FilePath) → q ≢ p → read fs' q ≡ read fs q)
  Writes p text fs (err _, fs') = (q : FilePath) → q ≢ p → read fs' q ≡ read fs q

  -- The file is moved, over one that is there, or nothing changes.
  abbrev pub Renames : FilePath → FilePath → Fs → Result Error (Unit {0}) × Fs → Type 0
  Renames a b fs (ok _, fs') =
      (read fs' b ≡ read fs a)
      × (read fs' a ≡ none)
      × ((q : FilePath) → q ≢ a → q ≢ b → read fs' q ≡ read fs q)
  Renames a b fs (err _, fs') = (q : FilePath) → read fs' q ≡ read fs q

  -- The documented behaviour of `std::fs`.
  pub record IsDisk : Type 0 where
    pub exists_law : (fs : Fs) (p : FilePath) → t.exists fs p ≡ false → read fs p ≡ none
    pub create_law : (p q : FilePath) (fs : Fs) → read (t.create_dir_all p fs).1 q ≡ read fs q
    pub write_law : (p : FilePath) (text : Text) (fs : Fs) → Writes p text fs (t.write p text fs)
    pub rename_law : (a b : FilePath) (fs : Fs) → a ≢ b → Renames a b fs (t.rename a b fs)
