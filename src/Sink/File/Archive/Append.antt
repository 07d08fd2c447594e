-- ===== src/Sink/File/Archive/Append.antt =====
-- What a write leaves of the archive (internal/filesink/writer.go).
use evm_tools.Base.{
  ℕ, ◌+◌, ◌≡◌, ◌⊎◌, inl, inr, refl, sym, ap, ◌∙◌, arith, Bool, true, false, not, ◌==◌, Option, none,
  some, List, [], ◌∷◌, ◌++◌, append_assoc, append-nil, Text, if◌then◌else◌, if_either, if_cases,
  length, take, length-append,
}
use evm_tools.Base.Exec.{Outcome, done, failed, panicked, pure, continue}
use evm_tools.Sink.File.Disk.{Disk, plain, remove, path_exists, is_found, find-put_file}
use evm_tools.Sink.File.Writer.{
  IoError, RotateConfig, Writer, Os, Act, attempt, active, write_active, roll_back, append_line,
  write, should_rotate, rotate,
}
use evm_tools.Sink.File.Archive.Contents.{bytes_in, remove-put_file}
use evm_tools.Sink.File.Archive.Rotation.{IsArchive, HasRemoved, active-write}
use evm_tools.Sink.File.Archive.Steps.{IsKeptOpen, rotate-IsKeptOpen}

take-length : {A : Type 0} (xs ys : List A) → take (length xs) (xs ++ ys) ≡ xs
take-length [] ys = refl
take-length (x ∷ xs) ys = ap (λ l. x ∷ l) (take-length xs ys)

module _ (c : RotateConfig) where
  -- The other files' bytes are as they were.
  others-write :
      (t : Text) (now : ℕ) (disk : Disk)
      → bytes_in (remove c.name (write_active c now t disk)) ≡ bytes_in (remove c.name disk)
  unfolding write_active
  others-write t now disk = ap bytes_in (remove-put_file c.name (plain t) now disk)

  -- Other bytes in the active file, of which the writer knows the size.
  written-IsArchive :
      (b t : Text) (now size : ℕ) (w : Writer)
      → bytes_in (remove c.name w.disk) ++ t ≡ b
      → (w.is_open ≡ true → size ≡ length t)
      → IsArchive c b (record w { disk = write_active c now t w.disk; size = size })
  unfolding path_exists write_active
  written-IsArchive b t now size w whole sized = record {
    whole =
        ap (λ x. bytes_in (remove c.name (write_active c now t w.disk)) ++ x)
          (active-write c now t w.disk)
        ∙ ap (λ x. x ++ t) (others-write t now w.disk)
        ∙ whole;
    on_disk = λ _. ap is_found (find-put_file c.name (plain t) now w.disk);
    sized = λ e. sized e ∙ ap length (sym (active-write c now t w.disk));
  }

  -- The bytes of all other files and of the active file, whatever the writer knows of them.
  abbrev pub HasBytes : Text → Writer → Type 0
  HasBytes b w = bytes_in (remove c.name w.disk) ++ active c w.disk ≡ b

  -- A part of the line, by a rollback that has failed.
  abbrev pub IsTorn : Text → Text → Os → IoError → Writer → Type 0
  IsTorn b line os e w = (os.truncating ≡ some e) × ((n : ℕ) × HasBytes (b ++ take n line) w)

  -- What a write of `line` leaves: the line is there if the write succeeded, and else it is there whole
  -- or not at all, or a part of it is and the rollback has failed.
  abbrev pub IsWritten : Text → Text → Os → Outcome IoError (Unit {0}) × Writer → Type 0
  IsWritten b line os (done x, w) = IsArchive c (b ++ line) w
  IsWritten b line os (panicked, w) = ⊥
  IsWritten b line os (failed e, w) =
      IsArchive c b w ⊎ (IsArchive c (b ++ line) w ⊎ IsTorn b line os e w)

  module _ (b line : Text) (os : Os) (w : Writer) (a : IsArchive c b w) where
    behind : (t : Text) → bytes_in (remove c.name w.disk) ++ (active c w.disk ++ t) ≡ b ++ t
    behind t =
        sym (append_assoc (bytes_in (remove c.name w.disk)) (active c w.disk) t)
        ∙ ap (λ x. x ++ t) a.whole

    rolled_back :
        (n : ℕ) (e : IoError)
        → w.is_open ≡ true
        → IsWritten b line os (
            roll_back c os n e
              (record w { disk = write_active c os.now (active c w.disk ++ take n line) w.disk }))
    unfolding roll_back
    rolled_back n e still_open =
        if_cases (IsWritten b line os) (n == 0)
          (λ none. inl (
            written-IsArchive b (active c w.disk ++ take n line) os.now w.size w
              (behind (take n line) ∙ ap (λ k. b ++ take k line) (first none) ∙ append-nil b)
              (λ o.
                a.sized o
                ∙ ap length (sym (append-nil (active c w.disk)))
                ∙ ap (λ k. length (active c w.disk ++ take k line)) (sym (first none)))))
          (λ _. by_truncation os.truncating refl)
      where
        first : {k : ℕ} → (k == 0) ≡ true → k ≡ 0
        first h = ground arith

        v : Writer
        v = record w { disk = write_active c os.now (active c w.disk ++ take n line) w.disk }

        now_active : active c v.disk ≡ active c w.disk ++ take n line
        now_active = active-write c os.now (active c w.disk ++ take n line) w.disk

        same_others : bytes_in (remove c.name v.disk) ≡ bytes_in (remove c.name w.disk)
        same_others = others-write (active c w.disk ++ take n line) os.now w.disk

        cut_back : take w.size (active c v.disk) ≡ active c w.disk
        cut_back =
            ap (λ k. take k (active c v.disk)) (a.sized still_open)
            ∙ ap (λ x. take (length (active c w.disk)) x) now_active
            ∙ take-length (active c w.disk) (take n line)

        by_truncation :
            (o : Option IoError)
            → os.truncating ≡ o
            → IsWritten b line os (elim o [
              | some e' ↦ (failed e', v)
              | none ↦ (
                failed e,
                record v { disk = write_active c os.now (take v.size (active c v.disk)) v.disk },
              )
            ])
        by_truncation (some e') h = inr (
            inr (
              h,
              (
                n,
                ap (λ x. bytes_in (remove c.name v.disk) ++ x) now_active
                    ∙ ap (λ x. x ++ (active c w.disk ++ take n line)) same_others
                    ∙ behind (take n line),
              ),
            ))
        by_truncation none h = inl (
            written-IsArchive b (take v.size (active c v.disk)) os.now w.size v
              (ap (λ x. bytes_in (remove c.name v.disk) ++ x) cut_back
                ∙ ap (λ x. x ++ active c w.disk) same_others
                ∙ a.whole)
              (λ o. a.sized o ∙ ap length (sym cut_back)))

    appended : IsArchive c (b ++ line) (record w {
      disk = write_active c os.now (active c w.disk ++ line) w.disk;
      size = w.size + length line;
    })
    appended =
        written-IsArchive (b ++ line) (active c w.disk ++ line) os.now (w.size + length line) w
          (behind line) (λ o. omega (arith, a.sized o, length-append (active c w.disk) line))

    append_line-IsWritten : IsWritten b line os (append_line c os line w)
    unfolding append_line
    append_line-IsWritten =
        if_cases (IsWritten b line os) (not w.is_open) (λ _. inl a)
          (λ h. by_writing os.writing (opened_by w.is_open h))
      where
        opened_by : (o : Bool) → not o ≡ false → o ≡ true
        opened_by true h = refl
        opened_by false h = cc h

        w' : Writer
        w' = record w {
          disk = write_active c os.now (active c w.disk ++ line) w.disk;
          size = w.size + length line;
        }

        by_syncing : (o : Option IoError) → IsWritten b line os (attempt o w')
        by_syncing (some e) = inr (inl appended)
        by_syncing none = appended

        by_writing :
            (o : Option (ℕ × IoError))
            → w.is_open ≡ true
            → IsWritten b line os (elim o [
              | some (n, e) ↦ roll_back c os n e (record w {
                disk = write_active c os.now (active c w.disk ++ take n line) w.disk;
              })
              | none ↦ (if c.fsync then attempt os.syncing else pure tt) w'
            ])
        by_writing (some (n, e)) still_open = rolled_back n e still_open
        by_writing none still_open =
            if_either (λ (act : Act). IsWritten b line os (act w')) c.fsync (by_syncing os.syncing)
              appended

  module _ (unpruned : c.max_backups ≡ 0) where
    after_rotation :
        (b line : Text) (os : Os) (r : Outcome IoError (Unit {0}) × Writer)
        → IsKeptOpen c b r
        → IsWritten b line os (continue r.0 (λ _. append_line c os line) r.1)
    after_rotation b line os (done x, w) (a, open_after, ok) = append_line-IsWritten b line os w a
    after_rotation b line os (failed e, w) (a, open_after, ok) = inl a
    after_rotation b line os (panicked, w) (a, open_after, ok) = absurd (ok refl)

    -- Where no segment is pruned and the source of a compressed segment can be removed, and whatever the
    -- operating system answers otherwise in the rotation and in the write: with the bytes of a directory
    -- those of all its files but the active one, plain or compressed and in the order in which they were
    -- made, and then those of the active file, a call of Write that succeeds has appended exactly the line
    -- and its newline to them; one that fails has appended all of it or nothing, except that a part of it
    -- stays where the truncation of the rollback has failed, whose error is then returned.
    pub write-IsWritten :
        (b line : Text) (os : Os) (w : Writer)
        → HasRemoved os.compressing
        → IsArchive c b w
        → IsWritten b (line ++ b'\n' ∷ []) os (write c os line w)
    unfolding write
    write-IsWritten b line os w ok a =
        let whole = line ++ b'\n' ∷ [] in
        if_either
          (λ (act : Act).
            IsWritten b whole os (continue (act w).0 (λ _. append_line c os whole) (act w).1))
          (should_rotate c os (length line + 1) w)
          (after_rotation b whole os (rotate c os w) (rotate-IsKeptOpen c unpruned b os w ok a))
          (append_line-IsWritten b whole os w a)
