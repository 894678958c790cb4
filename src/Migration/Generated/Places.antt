-- ===== src/Migration/Generated/Places.antt =====
-- The eight paths of a generated migration are different.
use mathlib.Core.List.{append_cancel_left, append_cancel_right}
use mathlib.Core.Bool.{false≢true}
use toasty_mgr.Prelude.{
  ℕ, ◌≡◌, ◌≢◌, refl, sym, ap, ◌∙◌, Bool, false, List, [], ◌∷◌, ◌++◌, length, length-append, Text,
  codes, nat_eq, nat_eq_iff, append-nil, if◌then◌else◌, arith,
}
use toasty_mgr.Migration.Types.{FilePath, ◌/+◌}
use toasty_mgr.Migration.Generated.{
  Folder, migrations, rollbacks, snapshots, history, Slot, file, temp, folder_path, file_name,
  slot_path,
}

-- The components of a folder below the root, and a number for each folder.
abbrev tail_of : Folder → List Text
tail_of migrations = codes "migrations" ∷ []
tail_of rollbacks = codes "rollbacks" ∷ []
tail_of snapshots = codes "snapshots" ∷ []
tail_of history = []

abbrev pub code_of : Folder → ℕ
code_of migrations = b'm'
code_of rollbacks = b'r'
code_of snapshots = b's'
code_of history = 0

abbrev tail_code : List Text → ℕ
tail_code [] = 0
tail_code ([] ∷ _) = 0
tail_code ((c ∷ _) ∷ _) = c

tail_code-tail_of : (f : Folder) → tail_code (tail_of f) ≡ code_of f
tail_code-tail_of migrations = refl
tail_code-tail_of rollbacks = refl
tail_code-tail_of snapshots = refl
tail_code-tail_of history = refl

folder_path-tail_of : (root : FilePath) (f : Folder) → folder_path root f ≡ root ++ tail_of f
folder_path-tail_of root migrations = refl
folder_path-tail_of root rollbacks = refl
folder_path-tail_of root snapshots = refl
folder_path-tail_of root history = sym (append-nil root)

folder_path-code_of :
    (root : FilePath) (f g : Folder)
    → folder_path root f ≡ folder_path root g
    → code_of f ≡ code_of g
folder_path-code_of root f g h =
    sym (tail_code-tail_of f)
    ∙ ap tail_code (
        append_cancel_left root (tail_of f) (tail_of g)
          (sym (folder_path-tail_of root f) ∙ h ∙ folder_path-tail_of root g))
    ∙ tail_code-tail_of g

name_of_code : Text → ℕ → Text
name_of_code stem n =
    if nat_eq n b's'
    then stem ++ codes ".toml"
    else if nat_eq n 0
    then codes "history.toml"
    else stem ++ codes ".sql"

file_name-code_of : (stem : Text) (f : Folder) → file_name stem f ≡ name_of_code stem (code_of f)
unfolding name_of_code
file_name-code_of stem migrations = refl
file_name-code_of stem rollbacks = refl
file_name-code_of stem snapshots = refl
file_name-code_of stem history = refl

abbrev leaf : FilePath → Text
leaf [] = []
leaf (x ∷ []) = x
leaf (x ∷ y ∷ p) = leaf (y ∷ p)

leaf-append : (p : FilePath) (x : Text) → leaf (p /+ x) ≡ x
leaf-append [] x = refl
leaf-append (y ∷ []) x = refl
leaf-append (y ∷ z ∷ p) x = leaf-append (z ∷ p) x

leaf_eq : (p q : FilePath) (x y : Text) → p /+ x ≡ q /+ y → x ≡ y
leaf_eq p q x y h = sym (leaf-append p x) ∙ ap leaf h ∙ leaf-append q y

stem_eq : (p q : FilePath) (x y : Text) → p /+ x ≡ q /+ y → p ≡ q
stem_eq p q x y h =
    append_cancel_right p q (x ∷ []) (h ∙ ap (λ z. q /+ z) (sym (leaf_eq p q x y h)))

temp_longer : (name : Text) → name ≢ codes "." ++ name ++ codes ".tmp"
temp_longer name h = omega (arith, ap length h, length-append (codes "." ++ name) (codes ".tmp"))

-- A file's own name is not a temporary one's in the same folder.
file-ne-temp :
    (root : FilePath) (stem : Text) (f g : Folder)
    → slot_path root stem (file f) ≢ slot_path root stem (temp g)
file-ne-temp root stem f g h =
    let own = file_name stem f in
    let other = codes "." ++ file_name stem g ++ codes ".tmp" in
    let folders =
      folder_path-code_of root f g
        (stem_eq (folder_path root f) (folder_path root g) own other h) in
    let names =
      file_name-code_of stem f ∙ ap (name_of_code stem) folders ∙ sym (file_name-code_of stem g) in
    temp_longer own (
      leaf_eq (folder_path root f) (folder_path root g) own other h
      ∙ ap (λ n. codes "." ++ n ++ codes ".tmp") (sym names))

abbrev pub slot_eq : Slot → Slot → Bool
slot_eq (file f) (file g) = nat_eq (code_of f) (code_of g)
slot_eq (temp f) (temp g) = nat_eq (code_of f) (code_of g)
slot_eq _ _ = false

-- Different slots have different paths.
pub slot_path-slot_eq :
    (root : FilePath) (stem : Text) (a b : Slot)
    → slot_eq a b ≡ false
    → slot_path root stem a ≢ slot_path root stem b
slot_path-slot_eq root stem (file f) (file g) h e =
    let same = folder_path-code_of root f g (stem_eq _ _ (file_name stem f) (file_name stem g) e) in
    false≢true (sym h ∙ (nat_eq_iff (code_of f) (code_of g)).1 same)
slot_path-slot_eq root stem (temp f) (temp g) h e =
    let same = folder_path-code_of root f g (
      stem_eq _ _ (codes "." ++ file_name stem f ++ codes ".tmp")
        (codes "." ++ file_name stem g ++ codes ".tmp") e) in
    false≢true (sym h ∙ (nat_eq_iff (code_of f) (code_of g)).1 same)
slot_path-slot_eq root stem (file f) (temp g) h e = file-ne-temp root stem f g e
slot_path-slot_eq root stem (temp f) (file g) h e = file-ne-temp root stem g f (sym e)
