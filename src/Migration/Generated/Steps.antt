-- ===== src/Migration/Generated/Steps.antt =====
-- What one write and one rename of `write_generated` do to the files at its paths and to the others.
use mathlib.Core.Option.{none-ne-some}
use toasty_mgr.Prelude.{
  ℕ, ◌≡◌, ◌≢◌, refl, sym, ap, ◌∙◌, true, false, Bool-cases, inl, inr, Option, none, some, nat_eq,
  nat_eq_iff, if◌then◌else◌, Text, Result, ok, err,
}
use toasty_mgr.Migration.Types.{FilePath, Error}
use toasty_mgr.Migration.Generated.{
  Folder, migrations, rollbacks, snapshots, history, Slot, file, temp, slot_path, Tools,
}
use toasty_mgr.Migration.Generated.Places.{code_of, slot_eq, slot_path-slot_eq}
use toasty_mgr.Migration.Generated.Disk.{Ends, Writes, Renames, IsDisk}

folder_of_code : ℕ → Folder
folder_of_code n =
    if nat_eq n b'm'
    then migrations
    else if nat_eq n b'r'
    then rollbacks
    else if nat_eq n b's'
    then snapshots
    else history

folder_of_code-code_of : (f : Folder) → folder_of_code (code_of f) ≡ f
unfolding folder_of_code
folder_of_code-code_of migrations = refl
folder_of_code-code_of rollbacks = refl
folder_of_code-code_of snapshots = refl
folder_of_code-code_of history = refl

code_of-injective : (f g : Folder) → nat_eq (code_of f) (code_of g) ≡ true → f ≡ g
code_of-injective f g h =
    sym (folder_of_code-code_of f)
    ∙ ap folder_of_code ((nat_eq_iff (code_of f) (code_of g)).0 h)
    ∙ folder_of_code-code_of g

pub slot_eq-true : (a b : Slot) → slot_eq a b ≡ true → a ≡ b
slot_eq-true (file f) (file g) h = ap file (code_of-injective f g h)
slot_eq-true (temp f) (temp g) h = ap temp (code_of-injective f g h)
slot_eq-true (file f) (temp g) h = cc
slot_eq-true (temp f) (file g) h = cc

module _ {Fs Schema : Type 0} (t : Tools Fs Schema) (read : Fs → FilePath → Option Text)
    (law : IsDisk t read) (root : FilePath) (stem : Text) (start : Fs) where
  abbrev pub at : Slot → FilePath
  at = slot_path root stem

  -- What the slots hold.
  abbrev pub View : Type 0
  View = Slot → Option Text

  abbrev pub put : Slot → Option Text → View → View
  put s x view u = if slot_eq s u then x else view u

  abbrev pub moved : Folder → View → View
  moved f view = put (file f) (view (temp f)) (put (temp f) none view)

  -- Every file that was there, but the history's, is there with its text.
  abbrev pub Keeps : Fs → Type 0
  Keeps fs =
      (q : FilePath) (x : Text) → q ≢ at (file history) → read start q ≡ some x → read fs q ≡ some x

  -- After a failure the history is the old one too.
  abbrev pub Unwritten : Fs → Type 0
  Unwritten fs = Keeps fs × (read fs (at (file history)) ≡ read start (at (file history)))

  abbrev pub Holds : View → Fs → Type 0
  Holds view fs = ((s : Slot) → read fs (at s) ≡ view s) × Keeps fs

  -- Nothing is at the slots, the history's place left out.
  abbrev pub IsFresh : Type 0
  IsFresh = (s : Slot) → slot_eq s (file history) ≡ false → read start (at s) ≡ none

  module _ (fresh : IsFresh) where
    pub apart :
        (s : Slot) (q : FilePath) (x : Text)
        → slot_eq s (file history) ≡ false
        → read start q ≡ some x
        → q ≢ at s
    apart s q x h content e =
        absurd (none-ne-some x (sym (fresh s h) ∙ ap (read start) (sym e) ∙ content))

    pub write-step :
        (view : View) (s : Slot) (text : Text) (fs : Fs) (r : Result Error (Unit {0}) × Fs)
        → slot_eq s (file history) ≡ false
        → view (file history) ≡ read start (at (file history))
        → Holds view fs
        → Writes t read (at s) text fs r
        → Ends (λ _ fs'. Holds (put s (some text) view) fs') Unwritten r
    write-step view s text fs (ok _, fs') h old (slots, keeps) (here, others) = (
      λ u. elim (Bool-cases (slot_eq s u)) [
        | inl same ↦ rw same (ap (λ w. read fs' (at w)) (sym (slot_eq-true s u same)) ∙ here)
        | inr other ↦
            rw other (others (at u) (λ e. slot_path-slot_eq root stem s u other (sym e)) ∙ slots u)
      ],
      λ q x off content. others q (apart s q x h content) ∙ keeps q x off content,
    )
    write-step view s text fs (err _, fs') h old (slots, keeps) others = (
      λ q x off content. others q (apart s q x h content) ∙ keeps q x off content,
      others (at (file history)) (λ e. slot_path-slot_eq root stem s (file history) h (sym e))
          ∙ slots (file history)
          ∙ old,
    )

    pub move-step :
        (view : View) (f : Folder) (fs : Fs) (r : Result Error (Unit {0}) × Fs)
        → ((q : FilePath) (x : Text)
            → q ≢ at (file history)
            → read start q ≡ some x
            → q ≢ at (file f))
        → view (file history) ≡ read start (at (file history))
        → Holds view fs
        → Renames t read (at (temp f)) (at (file f)) fs r
        → Ends (λ _ fs'. Holds (moved f view) fs') Unwritten r
    move-step view f fs (err _, fs') off old (slots, keeps) same = (
      λ q x away content. same q ∙ keeps q x away content,
      same (at (file history)) ∙ slots (file history) ∙ old,
    )
    move-step view f fs (ok _, fs') off old (slots, keeps) (here, gone, others) = (
      λ u. elim (Bool-cases (slot_eq (file f) u)) [
        | inl same ↦
            rw same (
              ap (λ w. read fs' (at w)) (sym (slot_eq-true (file f) u same))
              ∙ here
              ∙ slots (temp f))
        | inr other ↦ elim (Bool-cases (slot_eq (temp f) u)) [
          | inl same ↦
              rw (other, same)
                (ap (λ w. read fs' (at w)) (sym (slot_eq-true (temp f) u same)) ∙ gone)
          | inr neither ↦
              rw (other, neither)
                (others (at u) (λ e. slot_path-slot_eq root stem (temp f) u neither (sym e))
                    (λ e. slot_path-slot_eq root stem (file f) u other (sym e))
                  ∙ slots u)
        ]
      ],
      λ q x away content.
          others q (apart (temp f) q x refl content) (off q x away content)
          ∙ keeps q x away content,
    )
