-- ===== src/Sink/File/Names.antt =====
-- rotatedName of internal/filesink/writer.go. The text of a time in the layout of rotated segments is
-- a parameter.
pub mod Fresh
mod Pigeons
use evm_tools.Base.{
  ℕ, zero, suc, ◌+◌, ◌*◌, Bool, true, false, ◌&&◌, not, Option, none, some, List, [], ◌∷◌, ◌++◌,
  Text, codes, if◌then◌else◌, ◌==◌, decimal, length, trim_suffix,
}
use evm_tools.Sink.File.Disk.{Disk, path_exists}

abbrev pub dot_or : ℕ → Text → Option Text → Option Text
dot_or c s none = if c == b'.' then some (c ∷ s) else none
dot_or c s (some t) = some t

-- The text from its last dot on.
unfoldable pub last_dot : Text → Option Text
last_dot [] = none
last_dot (c ∷ s) = dot_or c s (last_dot s)

-- filepath.Ext, of a name without a directory
unfoldable pub extension : Text → Text
unfolding last_dot
extension name = elim (last_dot name) [ none ↦ [] | some t ↦ t ]

unfoldable pub base_name : Text → Text
unfolding extension
base_name name = trim_suffix name (extension name)

-- The names that are tried, one after the other.
unfoldable pub candidate : Text → Text → Text → ℕ → Text
candidate base stamp ext zero = base ++ (codes "-" ++ (stamp ++ ext))
candidate base stamp ext (suc i) =
    base ++ (codes "-" ++ (stamp ++ (codes "-" ++ (decimal (suc i) ++ ext))))

unfoldable pub is_fresh : Disk → Text → Bool
is_fresh disk name = not (path_exists name disk) && not (path_exists (name ++ codes ".gz") disk)

-- The loop, with the tries left.
unfoldable pub search_name : Disk → (ℕ → Text) → ℕ → ℕ → Option Text
search_name disk candidates zero i = none
search_name disk candidates (suc tries) i =
    let rest = search_name disk candidates tries (suc i) in
    if is_fresh disk (candidates i) then some (candidates i) else rest

-- rotatedName
unfoldable pub rotated_name : Text → Text → Disk → Option Text
unfolding base_name search_name
rotated_name name stamp disk =
    search_name disk (candidate (base_name name) stamp (extension name)) (2 * length disk + 2) 0
