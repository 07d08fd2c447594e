-- ===== src/Sink/File/Writer/Prune.antt =====
-- prune of internal/filesink/writer.go, where every segment that it removes can be removed.
use evm_tools.Base.{
  ℕ, ◌-◌, Bool, true, false, ◌&&◌, ◌||◌, not, List, [], ◌∷◌, ◌++◌, Text, codes, if◌then◌else◌, ltb,
  leb, ◌==◌, length, take, text_eq, has_prefix, has_suffix,
}
use evm_tools.Sink.File.Disk.{FileEntry, Disk, remove}
use evm_tools.Sink.File.Names.{base_name, extension}

-- `<` of texts
unfoldable pub text_lt : Text → Text → Bool
text_lt [] [] = false
text_lt [] (d ∷ t) = true
text_lt (c ∷ s) [] = false
text_lt (c ∷ s) (d ∷ t) = ltb c d || ((c == d) && text_lt s t)

-- Is this entry taken for a rotated segment of the active file?
unfoldable pub is_segment : Text → FileEntry → Bool
is_segment name f =
    not f.is_dir
    && not (text_eq f.name name)
    && has_prefix f.name (base_name name ++ codes "-")
    && (has_suffix f.name (extension name) || has_suffix f.name (extension name ++ codes ".gz"))

unfoldable pub segments : Text → Disk → List FileEntry
segments name [] = []
segments name (f ∷ disk) =
    let rest = segments name disk in if is_segment name f then f ∷ rest else rest

-- Oldest first; the name breaks ties.
unfoldable pub older : FileEntry → FileEntry → Bool
older f g = if f.modified == g.modified then text_lt f.name g.name else ltb f.modified g.modified

unfoldable pub insert_by_age : FileEntry → List FileEntry → List FileEntry
insert_by_age f [] = f ∷ []
insert_by_age f (g ∷ gs) =
    let rest = insert_by_age f gs in if older g f then g ∷ rest else f ∷ g ∷ gs

unfoldable pub sort_by_age : List FileEntry → List FileEntry
sort_by_age [] = []
sort_by_age (f ∷ fs) = insert_by_age f (sort_by_age fs)

unfoldable pub remove_all : List FileEntry → Disk → Disk
remove_all [] disk = disk
remove_all (f ∷ fs) disk = remove_all fs (remove f.name disk)

-- prune
unfoldable pub prune : Text → ℕ → Bool → Disk → Disk
unfolding segments sort_by_age remove_all
prune name max_backups listing_fails disk =
    let found = segments name disk in
    if max_backups == 0 || listing_fails
    then disk
    else if leb (length found) max_backups
    then disk
    else remove_all (take (length found - max_backups) (sort_by_age found)) disk
