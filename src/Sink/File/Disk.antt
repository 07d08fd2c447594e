-- ===== src/Sink/File/Disk.antt =====
-- The output directory of internal/filesink/writer.go as the operating system keeps it: named files
-- with their contents and times. All paths of the writer are in this directory.
use evm_tools.Base.{
  ℕ, ◌≡◌, refl, arith, Bool, true, false, Option, none, some, List, [], ◌∷◌, ◌++◌, Text,
  if◌then◌else◌, text_eq, text_eq_refl, text_eq_sound,
}

-- A file's bytes: as they are, or those of a gzip stream of them.
pub data Content : Type 0 where
  plain : Text → Content
  gzipped : Text → Content

pub record FileEntry : Type 0 where
  pub name : Text
  pub content : Content
  pub modified : ℕ
  pub is_dir : Bool

abbrev pub Disk : Type 0
Disk = List FileEntry

unfoldable pub find : Text → Disk → Option FileEntry
find name [] = none
find name (f ∷ disk) = let rest = find name disk in if text_eq f.name name then some f else rest

abbrev pub is_found : Option FileEntry → Bool
is_found none = false
is_found (some f) = true

-- pathExists
unfoldable pub path_exists : Text → Disk → Bool
path_exists name disk = is_found (find name disk)

-- os.Remove
unfoldable pub remove : Text → Disk → Disk
remove name [] = []
remove name (f ∷ disk) =
    let rest = remove name disk in if text_eq f.name name then rest else f ∷ rest

-- A file with this name and content, in place of any other.
unfoldable pub put_file : Text → Content → ℕ → Disk → Disk
unfolding remove
put_file name content now disk =
    remove name disk
    ++ record { name = name; content = content; modified = now; is_dir = false } ∷ []

abbrev pub moved_to : Text → FileEntry → Disk → Disk
moved_to name f disk = remove name disk ++ record f { name = name } ∷ []

abbrev pub renamed : Text → Option FileEntry → Disk → Disk
renamed new none disk = disk
renamed new (some f) disk = moved_to new f disk

-- os.Rename: the file keeps its content and its time, and takes the place of any other.
unfoldable pub rename : Text → Text → Disk → Disk
unfolding find remove
rename old new disk = renamed new (find old disk) (remove old disk)

-- Looking up after a change.

find-append :
    (name : Text) (disk : Disk) (f : FileEntry)
    → find name (disk ++ f ∷ []) ≡ (
        if is_found (find name disk)
        then find name disk
        else if text_eq f.name name
        then some f
        else none)
unfolding find
find-append name [] f = refl
find-append name (g ∷ disk) f = ground (arith, find-append name disk f)

pub find-remove_self : (name : Text) (disk : Disk) → find name (remove name disk) ≡ none
unfolding find remove
find-remove_self name [] = refl
find-remove_self name (f ∷ disk) = ground (arith, find-remove_self name disk)

pub find-remove_ne :
    (name other : Text) (disk : Disk)
    → text_eq other name ≡ false
    → find name (remove other disk) ≡ find name disk
unfolding find remove
find-remove_ne name other [] h = refl
find-remove_ne name other (f ∷ disk) h =
    ground (
      arith,
      find-remove_ne name other disk h,
      text_eq_sound f.name other,
      text_eq_sound f.name name,
    )

pub find-put_file :
    (name : Text) (content : Content) (now : ℕ) (disk : Disk)
    → find name (put_file name content now disk)
      ≡ some (record { name = name; content = content; modified = now; is_dir = false })
unfolding put_file
find-put_file name content now disk = ground (
  arith,
  find-append name (remove name disk)
      (record { name = name; content = content; modified = now; is_dir = false }),
  find-remove_self name disk,
  text_eq_refl name,
)

pub find-put_file_ne :
    (other name : Text) (content : Content) (now : ℕ) (disk : Disk)
    → text_eq name other ≡ false
    → find other (put_file name content now disk) ≡ find other disk
unfolding put_file
find-put_file_ne other name content now disk h = ground (
  arith,
  find-append other (remove name disk)
      (record { name = name; content = content; modified = now; is_dir = false }),
  find-remove_ne other name disk h,
)

pub find-rename :
    (old new : Text) (f : FileEntry) (disk : Disk)
    → find old disk ≡ some f
    → find new (rename old new disk) ≡ some (record f { name = new })
unfolding rename
find-rename old new f disk h = rw h (
    ground (
      arith,
      find-append new (remove new (remove old disk)) (record f { name = new }),
      find-remove_self new (remove old disk),
      text_eq_refl new,
    ))

pub find-rename_old :
    (old new : Text) (f : FileEntry) (disk : Disk)
    → find old disk ≡ some f
    → text_eq new old ≡ false
    → find old (rename old new disk) ≡ none
unfolding rename
find-rename_old old new f disk h ne = rw h (
    ground (
      arith,
      find-append old (remove new (remove old disk)) (record f { name = new }),
      find-remove_ne old new (remove old disk) ne,
      find-remove_self old disk,
    ))

pub find-rename_ne :
    (other old new : Text) (disk : Disk)
    → text_eq new other ≡ false
    → text_eq old other ≡ false
    → find other (rename old new disk) ≡ find other disk
unfolding rename
find-rename_ne other old new disk n o = by_entry (find old disk)
  where
    by_entry :
        (e : Option FileEntry) → find other (renamed new e (remove old disk)) ≡ find other disk
    by_entry none = find-remove_ne other old disk o
    by_entry (some f) = ground (
      arith,
      find-append other (remove new (remove old disk)) (record f { name = new }),
      find-remove_ne other new (remove old disk) n,
      find-remove_ne other old disk o,
    )
