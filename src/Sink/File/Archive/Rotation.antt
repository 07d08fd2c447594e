-- ===== src/Sink/File/Archive/Rotation.antt =====
-- The bytes behind the rename and the compression of a segment (internal/filesink/writer.go).
use evm_tools.Base.{
  ℕ, ◌≡◌, ◌≢◌, inl, inr, refl, ap, ◌∙◌, subst, true, false, Option, none, some, [], ◌∷◌, ◌++◌,
  append-nil, Text, codes, if_either, length, text_eq, text_eq_refl, text_eq_sound, Bool-cases,
}
use evm_tools.Sink.File.Disk.{
  plain, gzipped, FileEntry, Disk, find, remove, put_file, rename, path_exists, find-put_file,
  find-put_file_ne, find-rename, find-rename_old, find-rename_ne, find-remove_ne, is_found,
}
use evm_tools.Sink.File.Archive.Contents.{
  bytes_in, bytes_in-append, remove_absent, remove_twice, remove_other, remove_last, other_way,
  longer,
}
use evm_tools.Sink.File.Writer.{
  RotateConfig, Writer, Os, Compression, not_compressed, compressed, bytes_of, active, write_active,
  compress_segment,
}

-- The source of a compressed segment could be removed.
abbrev pub HasRemoved : Compression → Type 0
HasRemoved r = r ≢ compressed false

module _ (c : RotateConfig) where
  -- All files of the directory but the active one, in the order in which they were made, and then the
  -- active file have together exactly the bytes `b`; an open handle has a file, and knows its size.
  pub record IsArchive (b : Text) (w : Writer) : Type 0 where
    pub whole : bytes_in (remove c.name w.disk) ++ active c w.disk ≡ b
    pub on_disk : w.is_open ≡ true → path_exists c.name w.disk ≡ true
    pub sized : w.is_open ≡ true → w.size ≡ length (active c w.disk)

  pub active-write : (now : ℕ) (t : Text) (disk : Disk) → active c (write_active c now t disk) ≡ t
  unfolding active write_active
  active-write now t disk = ap bytes_of (find-put_file c.name (plain t) now disk)

  -- A name that is not in use is no name of a file.
  unused :
      (disk : Disk) (new x : Text) (f : FileEntry)
      → path_exists new disk ≡ false
      → find x disk ≡ some f
      → text_eq new x ≡ false
  unfolding path_exists
  unused disk new x f free found = elim (Bool-cases (text_eq new x)) [
    | inl same ↦ absurd (cc (free, found, text_eq_sound new x same))
    | inr other ↦ other
  ]

  absent : (disk : Disk) (new : Text) → path_exists new disk ≡ false → find new disk ≡ none
  unfolding path_exists
  absent disk new free = by_entry (find new disk) free
    where
      by_entry : (o : Option FileEntry) → is_found o ≡ false → o ≡ none
      by_entry none h = refl
      by_entry (some f) h = cc h

  module _ (os : Os) (segment : Text) (disk : Disk) (free : path_exists segment disk ≡ false)
      (free_gz : path_exists (segment ++ codes ".gz") disk ≡ false) where
    abbrev zip : Text
    zip = segment ++ codes ".gz"

    abbrev moved : Disk
    moved = rename c.name segment disk

    -- What a search finds that is neither for the segment nor for its compressed file.
    find-compress :
        (x : Text) (o : Option FileEntry) (r : Compression)
        → text_eq segment x ≡ false
        → text_eq zip x ≡ false
        → find x moved ≡ o
        → find x (compress_segment c r segment os.now moved) ≡ o
    unfolding compress_segment
    find-compress x o not_compressed s z h = h
    find-compress x o (compressed removed) s z h =
        let zipped = find-put_file_ne x zip _ os.now moved z ∙ h in
        if_either (λ d. find x d ≡ o) removed (find-remove_ne x segment _ s ∙ zipped) zipped

    module _ (f : FileEntry) (there : find c.name disk ≡ some f) where
      segment_ne : text_eq segment c.name ≡ false
      segment_ne = unused disk segment c.name f free there

      zip_ne : text_eq zip c.name ≡ false
      zip_ne = unused disk zip c.name f free_gz there

      moved-active : (r : Compression) → active c (compress_segment c r segment os.now moved) ≡ []
      unfolding active
      moved-active r = ap bytes_of (
          find-compress c.name none r segment_ne zip_ne
            (find-rename_old c.name segment f disk there segment_ne))

      in_segment : bytes_of (find segment moved) ≡ bytes_of (some f)
      in_segment = ap bytes_of (find-rename c.name segment f disk there)

      -- The other files, and the segment behind them.
      moved_lem : moved ≡ remove c.name disk ++ record f { name = segment } ∷ []
      unfolding rename
      moved_lem = rw there (
          ap (λ d. d ++ record f { name = segment } ∷ [])
            (remove_absent segment (remove c.name disk) (
              find-remove_ne segment c.name disk (other_way segment c.name segment_ne)
              ∙ absent disk segment free)))

      no_zip : find zip moved ≡ none
      no_zip =
          find-rename_ne zip c.name segment disk (longer segment) (other_way zip c.name zip_ne)
          ∙ absent disk zip free_gz

      no_segment : remove segment (remove c.name disk) ≡ remove c.name disk
      no_segment = remove_absent segment (remove c.name disk) (
          find-remove_ne segment c.name disk (other_way segment c.name segment_ne)
          ∙ absent disk segment free)

      -- The compressed file with the segment's bytes.
      abbrev zip_entry : FileEntry
      zip_entry = record {
        name = zip;
        content = gzipped (bytes_of (find segment moved));
        modified = os.now;
        is_dir = false;
      }

      zipped_lem :
          remove segment (put_file zip (gzipped (bytes_of (find segment moved))) os.now moved)
          ≡ remove c.name disk ++ zip_entry ∷ []
      unfolding put_file
      zipped_lem =
          ap (λ d. remove segment (d ++ zip_entry ∷ [])) (remove_absent zip moved no_zip)
          ∙ remove_other segment moved zip_entry (other_way segment zip (longer segment))
          ∙ ap (λ d. remove segment d ++ zip_entry ∷ []) moved_lem
          ∙ ap (λ d. d ++ zip_entry ∷ [])
              (remove_last segment (remove c.name disk) (record f { name = segment })
                  (text_eq_refl segment)
                ∙ no_segment)

      behind_others :
          (e : FileEntry) (d : Disk)
          → text_eq e.name c.name ≡ false
          → bytes_of (some e) ≡ bytes_of (some f)
          → d ≡ remove c.name disk ++ e ∷ []
          → bytes_in (remove c.name d) ≡ bytes_in (remove c.name disk) ++ bytes_of (some f)
      behind_others e d ne same h =
          ap (λ x. bytes_in (remove c.name x)) h
          ∙ ap bytes_in (remove_other c.name (remove c.name disk) e ne)
          ∙ ap (λ x. bytes_in (x ++ e ∷ [])) (remove_twice c.name disk)
          ∙ bytes_in-append (remove c.name disk) e
          ∙ ap (λ x. bytes_in (remove c.name disk) ++ x) same

      moved-bytes_in :
          (r : Compression)
          → HasRemoved r
          → bytes_in (remove c.name (compress_segment c r segment os.now moved))
            ≡ bytes_in (remove c.name disk) ++ bytes_of (some f)
      unfolding compress_segment
      moved-bytes_in not_compressed ok =
          behind_others (record f { name = segment }) moved segment_ne refl moved_lem
      moved-bytes_in (compressed true) ok = behind_others zip_entry _ zip_ne in_segment zipped_lem
      moved-bytes_in (compressed false) ok = absurd (ok refl)

      -- The segment has the active file's bytes, and nothing else has changed.
      pub moved-IsArchive :
          (b : Text) (w : Writer) (r : Compression)
          → HasRemoved r
          → w.disk ≡ disk
          → w.is_open ≡ false
          → IsArchive b w
          → IsArchive b (record w { disk = compress_segment c r segment os.now moved })
      unfolding active
      moved-IsArchive b w r ok same shut a =
          let disk' = compress_segment c r segment os.now moved in
          let whole =
            subst (λ d. bytes_in (remove c.name d) ++ bytes_of (find c.name d) ≡ b) same a.whole in
          record {
            whole =
                ap (λ t. bytes_in (remove c.name disk') ++ t) (moved-active r)
                ∙ append-nil (bytes_in (remove c.name disk'))
                ∙ moved-bytes_in r ok
                ∙ subst (λ o. bytes_in (remove c.name disk) ++ bytes_of o ≡ b) there whole;
            on_disk = λ e. absurd (cc (e, shut));
            sized = λ e. absurd (cc (e, shut));
          }
