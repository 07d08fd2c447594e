-- ===== src/Sink/File/Archive/Contents.antt =====
-- The bytes of a directory of files, and what the removal of a file leaves of it.
use evm_tools.Base.{
  ℕ, ◌≡◌, inl, inr, refl, sym, ap, ◌∙◌, arith, true, false, none, some, [], ◌∷◌, ◌++◌, append_assoc,
  append-nil, Text, codes, text_eq, text_eq_refl, text_eq_sound, Bool-cases, if◌then◌else◌,
}
use evm_tools.Sink.File.Disk.{Content, FileEntry, Disk, find, remove, put_file, find-remove_self}
use evm_tools.Sink.File.Writer.{bytes_of}

-- The bytes of all files, plain or compressed, in their order on the disk: a new file comes last.
abbrev pub bytes_in : Disk → Text
bytes_in [] = []
bytes_in (f ∷ disk) = bytes_of (some f) ++ bytes_in disk

pub bytes_in-append :
    (disk : Disk) (f : FileEntry) → bytes_in (disk ++ f ∷ []) ≡ bytes_in disk ++ bytes_of (some f)
bytes_in-append [] f = append-nil (bytes_of (some f))
bytes_in-append (g ∷ disk) f =
    ap (λ x. bytes_of (some g) ++ x) (bytes_in-append disk f)
    ∙ sym (append_assoc (bytes_of (some g)) (bytes_in disk) (bytes_of (some f)))

pub remove_absent : (name : Text) (disk : Disk) → find name disk ≡ none → remove name disk ≡ disk
unfolding find remove
remove_absent name [] h = refl
remove_absent name (f ∷ disk) h = elim (Bool-cases (text_eq f.name name)) [
  | inl same ↦ absurd (ground (arith, h, same))
  | inr other ↦ rw other (ap (λ d. f ∷ d) (remove_absent name disk (ground (arith, h, other))))
]

pub remove_twice : (name : Text) (disk : Disk) → remove name (remove name disk) ≡ remove name disk
remove_twice name disk = remove_absent name (remove name disk) (find-remove_self name disk)

pub remove-append :
    (name : Text) (disk : Disk) (f : FileEntry)
    → remove name (disk ++ f ∷ [])
      ≡ remove name disk ++ (if text_eq f.name name then [] else f ∷ [])
unfolding remove
remove-append name [] f = refl
remove-append name (g ∷ disk) f = elim (Bool-cases (text_eq g.name name)) [
  | inl same ↦ rw same (remove-append name disk f)
  | inr other ↦ rw other (ap (λ d. g ∷ d) (remove-append name disk f))
]

pub remove_other :
    (name : Text) (disk : Disk) (f : FileEntry)
    → text_eq f.name name ≡ false
    → remove name (disk ++ f ∷ []) ≡ remove name disk ++ f ∷ []
remove_other name disk f h =
    remove-append name disk f ∙ ap (λ b. remove name disk ++ (if b then [] else f ∷ [])) h

pub remove_last :
    (name : Text) (disk : Disk) (f : FileEntry)
    → text_eq f.name name ≡ true
    → remove name (disk ++ f ∷ []) ≡ remove name disk
remove_last name disk f h =
    remove-append name disk f
    ∙ ap (λ b. remove name disk ++ (if b then [] else f ∷ [])) h
    ∙ append-nil (remove name disk)

-- Another content of a file leaves the others as they are.
pub remove-put_file :
    (name : Text) (t : Content) (now : ℕ) (disk : Disk)
    → remove name (put_file name t now disk) ≡ remove name disk
unfolding put_file
remove-put_file name t now disk =
    remove_last name (remove name disk) _ (text_eq_refl name) ∙ remove_twice name disk

pub other_way : (s t : Text) → text_eq s t ≡ false → text_eq t s ≡ false
other_way s t h = elim (Bool-cases (text_eq t s)) [
  | inl same ↦ absurd (cc (h, text_eq_sound t s same, text_eq_refl s))
  | inr other ↦ other
]

pub longer : (s : Text) → text_eq s (s ++ codes ".gz") ≡ false
unfolding text_eq
longer [] = refl
longer (x ∷ s) = ground (arith, longer s)
