-- ===== src/Sink/File/Writer.antt =====
-- The rotating writer of internal/filesink/writer.go: Write with its rollback, rotate and prune. What
-- the operating system answers is given for each call of Write.
pub mod Prune
use evm_tools.Base.{
  ℕ, zero, suc, ◌+◌, ◌-◌, Bool, true, false, ◌&&◌, not, Option, none, some, List, [], ◌∷◌, ◌++◌,
  Text, codes, if◌then◌else◌, ltb, leb, ◌==◌, length, take,
}
use evm_tools.Base.Exec.{
  Outcome, done, failed, panicked, Exec, pure, fail, gets, modify, ◌>>=◌, ◌>>◌,
}
use evm_tools.Sink.File.Disk.{
  Content, plain, gzipped, FileEntry, Disk, find, put_file, remove, rename, path_exists,
}
use evm_tools.Sink.File.Names.{rotated_name}
use evm_tools.Sink.File.Writer.Prune.{prune}

-- An error of the operating system, with whether it says that the disk is full (ENOSPC or EDQUOT).
pub record IoError : Type 0 where
  pub full_disk : Bool
  pub text : Text

-- RotateConfig; 0 switches a limit off.
pub record RotateConfig : Type 0 where
  pub name : Text
  pub max_size : ℕ
  pub max_age : ℕ
  pub max_backups : ℕ
  pub compress : Bool
  pub fsync : Bool

-- The Writer, with the output directory.
pub record Writer : Type 0 where
  pub disk : Disk
  pub is_open : Bool
  pub size : ℕ
  pub opened_at : ℕ

-- What compressFile comes to: an error before the compressed file is in place, or the compressed file,
-- with whether the source could be removed.
pub data Compression : Type 0 where
  not_compressed : Compression
  compressed : Bool → Compression

-- What the operating system does in one call of Write.
pub record Os : Type 0 where
  pub now : ℕ
  pub stamp : Text
  pub closing : Option IoError
  pub renaming : Option IoError
  pub compressing : Compression
  pub making_dir : Option IoError
  pub opening : Option IoError
  pub stating : Option IoError
  pub listing_fails : Bool
  pub writing : Option (ℕ × IoError)
  pub truncating : Option IoError
  pub syncing : Option IoError

abbrev pub Act : Type 0
Act = Exec IoError Writer (Unit {0})

abbrev pub attempt : Option IoError → Act
attempt none = pure tt
attempt (some e) = fail e

-- The error of a call on a handle that was closed.
abbrev pub closed_error : IoError
closed_error = record { full_disk = false; text = codes "file already closed" }

abbrev pub bytes_of : Option FileEntry → Text
bytes_of none = []
bytes_of (some f) = elim f.content [ plain t ↦ t | gzipped t ↦ t ]

abbrev pub created : Text → ℕ → Option FileEntry → Disk → Disk
created name now none disk = put_file name (plain []) now disk
created name now (some f) disk = disk

module _ (c : RotateConfig) where
  -- The active file's bytes.
  unfoldable pub active : Disk → Text
  active disk = bytes_of (find c.name disk)

  unfoldable pub write_active : ℕ → Text → Disk → Disk
  write_active now t disk = put_file c.name (plain t) now disk

  -- open, from OpenFile on
  unfoldable pub opened : Os → Act
  unfolding active
  opened os w =
      let disk = created c.name os.now (find c.name w.disk) w.disk in
      elim os.stating [
        | some e ↦ (failed e, record w { disk = disk })
        | none ↦ (
          done tt,
          record w { disk = disk; is_open = true; size = length (active disk); opened_at = os.now },
        )
      ]

  -- open
  unfoldable pub open_active : Os → Act
  unfolding opened
  open_active os = attempt os.making_dir >> attempt os.opening >> opened os

  -- w.f.Close, which closes the handle also where it fails
  unfoldable pub close_handle : Os → Act
  close_handle os w =
      if w.is_open
      then attempt os.closing (record w { is_open = false })
      else (failed closed_error, w)

  unfoldable pub compress_segment : Compression → Text → ℕ → Disk → Disk
  compress_segment not_compressed segment now disk = disk
  compress_segment (compressed removed) segment now disk =
      let zipped =
        put_file (segment ++ codes ".gz") (gzipped (bytes_of (find segment disk))) now disk in
      if removed then remove segment zipped else zipped

  abbrev pub move_away : Os → Text → Act
  move_away os segment =
      modify (λ w. record w { disk = rename c.name segment w.disk })
      >> modify (λ w.
        if c.compress
        then record w { disk = compress_segment os.compressing segment os.now w.disk }
        else w)

  abbrev pub renamed_to : Os → Option Text → Act
  renamed_to os none = λ w. (panicked, w)
  renamed_to os (some segment) = attempt os.renaming >> move_away os segment

  -- rotate, with its close, rename, compression, open and prune
  unfoldable pub rotate : Os → Act
  unfolding close_handle open_active compress_segment
  rotate os =
      close_handle os
      >> (λ w. renamed_to os (rotated_name c.name os.stamp w.disk) w)
      >> open_active os
      >> modify (λ w. record w { disk = prune c.name c.max_backups os.listing_fails w.disk })

  -- shouldRotate
  unfoldable pub should_rotate : Os → ℕ → Writer → Bool
  should_rotate os need w =
      if w.size == 0
      then false
      else if ltb 0 c.max_size && ltb c.max_size (w.size + need)
      then true
      else ltb 0 c.max_age && leb c.max_age (os.now - w.opened_at)

  -- The rollback of a write that has failed behind `n` bytes: to the size before it.
  unfoldable pub roll_back : Os → ℕ → IoError → Act
  unfolding write_active active
  roll_back os n e w = if n == 0 then (failed e, w) else elim os.truncating [
    | some e' ↦ (failed e', w)
    | none ↦
        (failed e, record w { disk = write_active os.now (take w.size (active w.disk)) w.disk })
  ]

  -- The write of the line with its newline, from the handle's Write on.
  unfoldable pub append_line : Os → Text → Act
  unfolding roll_back
  append_line os line w = if not w.is_open then (failed closed_error, w) else elim os.writing [
    | some (n, e) ↦
        roll_back os n e
          (record w { disk = write_active os.now (active w.disk ++ take n line) w.disk })
    | none ↦
        let w' = record w {
          disk = write_active os.now (active w.disk ++ line) w.disk;
          size = w.size + length line;
        } in
        (if c.fsync then attempt os.syncing else pure tt) w'
  ]

  -- Write
  unfoldable pub write : Os → Text → Act
  unfolding should_rotate
  write os line =
      (λ w. (if should_rotate os (length line + 1) w then rotate os else pure tt) w)
      >> append_line os (line ++ b'\n' ∷ [])
