-- ===== src/Migration/Generated/Refused.antt =====
-- What `write_generated` does before its first write: the directories, the test of the paths and the
-- checks of the statements change no file.
use toasty_mgr.Prelude.{
  ◌≡◌, refl, sym, ap, ◌∙◌, Bool, true, false, ◌||◌, Bool-cases, inl, inr, Option, List, [], ◌∷◌,
  any, Text, Result, ok, err,
}
use toasty_mgr.Prelude.Action.{lift, bail_when}
use toasty_mgr.Migration.Types.{FilePath, Error, refusing_to_overwrite}
use toasty_mgr.Migration.Generated.{
  migrations, rollbacks, snapshots, history, Slot, file, temp, slot_path, Tools, is_occupied,
  checked_slots,
}
use toasty_mgr.Migration.Generated.Places.{slot_eq}
use toasty_mgr.Migration.Generated.Disk.{Ends, IsDisk}
use toasty_mgr.Migration.Generated.Steps.{Unwritten, IsFresh, slot_eq-true, at}
use toasty_mgr.Migration.Generated.Written.{empty_view, Seen}

abbrev None : (Slot → Bool) → List Slot → Type 0
None p [] = true ≡ true
None p (x ∷ xs) = (p x ≡ false) × None p xs

or_false : (a b : Bool) → (a || b) ≡ false → (a ≡ false) × (b ≡ false)
or_false true b h = cc
or_false false b h = (refl, h)

any-None : (p : Slot → Bool) (xs : List Slot) → any p xs ≡ false → None p xs
any-None p [] h = refl
any-None p (x ∷ xs) h = let both = or_false (p x) (any p xs) h in (both.0, any-None p xs both.1)

-- What the seven tests say.
None-slot_eq :
    (p : Slot → Bool) (s : Slot)
    → None p checked_slots
    → slot_eq s (file history) ≡ false
    → p s ≡ false
None-slot_eq p (file migrations) h e = h.0
None-slot_eq p (file rollbacks) h e = h.1.0
None-slot_eq p (file snapshots) h e = h.1.1.0
None-slot_eq p (file history) h e = cc
None-slot_eq p (temp migrations) h e = h.1.1.1.0
None-slot_eq p (temp rollbacks) h e = h.1.1.1.1.0
None-slot_eq p (temp snapshots) h e = h.1.1.1.1.1.0
None-slot_eq p (temp history) h e = h.1.1.1.1.1.1.0

module _ {Fs Schema : Type 0} (t : Tools Fs Schema) (read : Fs → FilePath → Option Text)
    (law : IsDisk t read) (start : Fs) where
  unfoldable pub Same : Fs → Type 0
  Same fs = (q : FilePath) → read fs q ≡ read start q

  module _ (root : FilePath) (stem : Text) where
    Same-Unwritten : (fs : Fs) → Same fs → Unwritten t read law root stem start fs
    unfolding Same
    Same-Unwritten fs same = (λ q x _ content. same q ∙ content, same _)

    pub start-Same : Same start
    unfolding Same
    start-Same q = refl

    pub create-Ends :
        (p : FilePath) (fs : Fs) (r : Result Error (Unit {0}) × Fs)
        → ((q : FilePath) → read r.1 q ≡ read fs q)
        → Same fs
        → Ends (λ _ fs'. Same fs') (Unwritten t read law root stem start) r
    unfolding Same
    create-Ends p fs (ok _, fs') e same = λ q. e q ∙ same q
    create-Ends p fs (err _, fs') e same = Same-Unwritten fs' (λ q. e q ∙ same q)

    unoccupied :
        (fs : Fs)
        → is_occupied t root stem fs ≡ false
        → Same fs
        → IsFresh t read law root stem start
    unfolding Same
    unoccupied fs h same s e =
        sym (same _)
        ∙ law.exists_law fs (slot_path root stem s) (
            None-slot_eq (λ u. t.exists fs (slot_path root stem u)) s
              (any-None (λ u. t.exists fs (slot_path root stem u)) checked_slots h) e)

    pub refuse-Ends :
        (label : Text) (fs : Fs) (b : Bool)
        → is_occupied t root stem fs ≡ b
        → Same fs
        → Ends
            (λ _ fs'. Same fs' × IsFresh t read law root stem start)
            (Unwritten t read law root stem start)
            (bail_when b (refusing_to_overwrite label) fs)
    refuse-Ends label fs true h same = Same-Unwritten fs same
    refuse-Ends label fs false h same = (same, unoccupied fs h same)

    pub lift-Ends :
        {A : Type 0} (r : Result Error A) (fs : Fs)
        → Same fs
        → Ends (λ _ fs'. Same fs') (Unwritten t read law root stem start) (lift r fs)
    lift-Ends (ok _) fs same = same
    lift-Ends (err _) fs same = Same-Unwritten fs same

    pub Same-Seen :
        (fs : Fs)
        → Same fs
        → IsFresh t read law root stem start
        → Seen t read law root stem start (empty_view t read law root stem start) fs
    unfolding Same
    Same-Seen fs same fresh = (
      λ s. elim (Bool-cases (slot_eq s (file history))) [
        | inl own ↦ rw own (
            ap (λ w. read fs (at t read law root stem start w)) (slot_eq-true s (file history) own)
            ∙ same _)
        | inr other ↦ rw other (same _ ∙ fresh s other)
      ],
      λ q x away content. same q ∙ content,
    )
