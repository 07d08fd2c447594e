-- ===== src/Sink/File/Archive/Steps.antt =====
-- The bytes behind each step of a rotation (internal/filesink/writer.go).
use evm_tools.Base.{
  ℕ, ◌≡◌, ◌≢◌, refl, sym, ap, ◌∙◌, subst, arith, Bool, true, false, Option, none, some, [], ◌++◌,
  Text, codes, if_either, if_cases, length, zero, suc,
}
use evm_tools.Base.Exec.{Outcome, done, failed, panicked, continue, modify, ◌>>◌}
use evm_tools.Sink.File.Disk.{
  plain, FileEntry, Disk, find, put_file, remove, rename, path_exists, is_found, find-put_file,
}
use evm_tools.Sink.File.Names.{rotated_name, is_fresh}
use evm_tools.Sink.File.Names.Fresh.{rotated_name_lem}
use evm_tools.Sink.File.Writer.Prune.{prune}
use evm_tools.Sink.File.Writer.{
  IoError, RotateConfig, Writer, Os, Act, Compression, not_compressed, attempt, bytes_of, created,
  active, opened, open_active, close_handle, compress_segment, move_away, renamed_to, rotate,
}
use evm_tools.Sink.File.Archive.Contents.{bytes_in, remove-put_file}
use evm_tools.Sink.File.Archive.Rotation.{IsArchive, HasRemoved, moved-IsArchive}

module _ (c : RotateConfig) where
  closed-IsArchive :
      (b : Text) (w : Writer) → IsArchive c b w → IsArchive c b (record w { is_open = false })
  closed-IsArchive b w a = record { whole = a.whole; on_disk = λ e. cc e; sized = λ e. cc e }

  -- A new, empty active file has no bytes, as none had.
  created-IsArchive :
      (b : Text) (now : ℕ) (w : Writer) (o : Option FileEntry) (still_open : Bool) (size at : ℕ)
      → find c.name w.disk ≡ o
      → (still_open ≡ true → size ≡ length (active c (created c.name now o w.disk)))
      → IsArchive c b w
      → IsArchive c b (record w {
        disk = created c.name now o w.disk;
        is_open = still_open;
        size = size;
        opened_at = at;
      })
  unfolding active path_exists
  created-IsArchive b now w none still_open size at there sized a =
      let found = find-put_file c.name (plain []) now w.disk in
      record {
        whole =
            ap (λ d. bytes_in d ++ bytes_of (find c.name (put_file c.name (plain []) now w.disk)))
              (remove-put_file c.name (plain []) now w.disk)
            ∙ ap (λ o. bytes_in (remove c.name w.disk) ++ bytes_of o) found
            ∙ ap (λ o. bytes_in (remove c.name w.disk) ++ bytes_of o) (sym there)
            ∙ a.whole;
        on_disk = λ _. ap is_found found;
        sized = sized;
      }
  created-IsArchive b now w (some f) still_open size at there sized a = record {
    whole = a.whole;
    on_disk = λ _. ap is_found there;
    sized = sized;
  }

  -- What an action leaves, and that it ends with an open handle if it succeeds.
  abbrev pub IsKeptOpen : Text → Outcome IoError (Unit {0}) × Writer → Type 0
  IsKeptOpen b r = IsArchive c b r.1 × (r.0 ≡ done tt → r.1.is_open ≡ true) × (r.0 ≢ panicked)

  opened-IsKeptOpen :
      (b : Text) (os : Os) (w : Writer)
      → w.is_open ≡ false
      → IsArchive c b w
      → IsKeptOpen b (opened c os w)
  unfolding opened
  opened-IsKeptOpen b os w shut a = by_stat os.stating
    where
      by_stat :
          (e : Option IoError)
          → IsKeptOpen b (elim e [
            | some x ↦
                (failed x, record w { disk = created c.name os.now (find c.name w.disk) w.disk })
            | none ↦ (
              done tt,
              record w {
                disk = created c.name os.now (find c.name w.disk) w.disk;
                is_open = true;
                size = length (active c (created c.name os.now (find c.name w.disk) w.disk));
                opened_at = os.now;
              },
            )
          ])
      by_stat (some x) = (
        created-IsArchive b os.now w (find c.name w.disk) w.is_open w.size w.opened_at refl
            (λ e. absurd (cc (e, shut))) a,
        λ e. cc e,
        λ e. cc e,
      )
      by_stat none = (
        created-IsArchive b os.now w (find c.name w.disk) true _ os.now refl (λ _. refl) a,
        λ _. refl,
        λ e. cc e,
      )

  open_active-IsKeptOpen :
      (b : Text) (os : Os) (w : Writer)
      → w.is_open ≡ false
      → IsArchive c b w
      → IsKeptOpen b (open_active c os w)
  unfolding open_active
  open_active-IsKeptOpen b os w shut a = by_errors os.making_dir os.opening
    where
      by_errors : (d o : Option IoError) → IsKeptOpen b ((attempt d >> attempt o >> opened c os) w)
      by_errors (some e) o = (a, λ h. cc h, λ h. cc h)
      by_errors none (some e) = (a, λ h. cc h, λ h. cc h)
      by_errors none none = opened-IsKeptOpen b os w shut a

  -- Nothing is pruned where no limit is set.
  prune_none :
      (name : Text) (max_backups : ℕ) (listing_fails : Bool) (disk : Disk)
      → max_backups ≡ 0
      → prune name max_backups listing_fails disk ≡ disk
  unfolding prune
  prune_none name zero listing_fails disk h = refl
  prune_none name (suc n) listing_fails disk h = absurd (omega arith)

  module _ (unpruned : c.max_backups ≡ 0) where
    then_prune :
        (b : Text) (listing_fails : Bool) (r : Outcome IoError (Unit {0}) × Writer)
        → IsKeptOpen b r
        → IsKeptOpen b (
            continue r.0
              (λ _.
                modify (λ w. record w { disk = prune c.name c.max_backups listing_fails w.disk }))
              r.1)
    then_prune b listing_fails (done x, w) (a, open_after, ok) =
        subst (λ d. IsKeptOpen b (done tt, record w { disk = d }))
          (sym (prune_none c.name c.max_backups listing_fails w.disk unpruned))
          (a, λ _. open_after refl, λ e. cc e)
    then_prune b listing_fails (failed e, w) h = h
    then_prune b listing_fails (panicked, w) h = h

    -- The rest of a rotation, from the rename on.
    rotated :
        (b : Text) (os : Os) (f : FileEntry) (w : Writer) (segment : Text)
        → find c.name w.disk ≡ some f
        → is_fresh w.disk segment ≡ true
        → HasRemoved os.compressing
        → IsArchive c b w
        → w.is_open ≡ false
        → IsKeptOpen b (
            (renamed_to c os (some segment)
                >> open_active c os
                >> modify
                    (λ v. record v { disk = prune c.name c.max_backups os.listing_fails v.disk }))
              w)
    unfolding is_fresh compress_segment
    rotated b os f w segment there fresh ok a shut = by_rename os.renaming
      where
        free : path_exists segment w.disk ≡ false
        free = ground arith

        free_gz : path_exists (segment ++ codes ".gz") w.disk ≡ false
        free_gz = ground arith

        with_result :
            (r : Compression)
            → HasRemoved r
            → IsArchive c b (record w {
              disk = compress_segment c r segment os.now (rename c.name segment w.disk);
            })
        with_result r h =
            moved-IsArchive c os segment w.disk free free_gz f there b w r h refl shut a

        by_rename :
            (e : Option IoError)
            → IsKeptOpen b (
                (attempt e
                    >> move_away c os segment
                    >> open_active c os
                    >> modify (λ v. record v {
                      disk = prune c.name c.max_backups os.listing_fails v.disk;
                    }))
                  w)
        by_rename (some e) = (a, λ h. cc h, λ h. cc h)
        by_rename none =
            if_either
              (λ v. IsKeptOpen b (
                continue (open_active c os v).0
                  (λ _.
                    modify
                      (λ u. record u { disk = prune c.name c.max_backups os.listing_fails u.disk }))
                  (open_active c os v).1))
              c.compress
              (then_prune b os.listing_fails _
                (open_active-IsKeptOpen b os _ shut (with_result os.compressing ok)))
              (then_prune b os.listing_fails _
                (open_active-IsKeptOpen b os _ shut (with_result not_compressed (λ h. cc h))))

    exists : (o : Option FileEntry) → is_found o ≡ true → (f : FileEntry) × (o ≡ some f)
    exists none h = cc h
    exists (some f) h = (f, refl)

    abbrev after_name : Os → Option Text → Act
    after_name os segment =
        renamed_to c os segment
        >> open_active c os
        >> modify (λ v. record v { disk = prune c.name c.max_backups os.listing_fails v.disk })

    abbrev after_close :
        Os → Outcome IoError (Unit {0}) × Writer → Outcome IoError (Unit {0}) × Writer
    after_close os r =
        ((λ (v : Writer). r)
            >> (λ v. renamed_to c os (rotated_name c.name os.stamp v.disk) v)
            >> open_active c os
            >> modify (λ v. record v { disk = prune c.name c.max_backups os.listing_fails v.disk }))
          r.1

    -- Where a compressed source is removed, every step of a rotation keeps all the bytes, and a rotation that succeeds leaves an open handle.
    pub rotate-IsKeptOpen :
        (b : Text) (os : Os) (w : Writer)
        → HasRemoved os.compressing
        → IsArchive c b w
        → IsKeptOpen b (rotate c os w)
    unfolding rotate close_handle path_exists
    rotate-IsKeptOpen b os w ok a =
        if_cases (λ r. IsKeptOpen b (after_close os r)) w.is_open (by_close os.closing)
          (λ _. (a, λ h. cc h, λ h. cc h))
      where
        by_close :
            (e : Option IoError)
            → w.is_open ≡ true
            → IsKeptOpen b (after_close os (attempt e (record w { is_open = false })))
        by_close (some e) still_open = (closed-IsArchive b w a, λ h. cc h, λ h. cc h)
        by_close none still_open =
            let (segment, named, fresh) = rotated_name_lem c.name os.stamp w.disk in
            let (f, there) = exists (find c.name w.disk) (a.on_disk still_open) in
            let v : Writer = record w { is_open = false } in
            subst (λ o. IsKeptOpen b (after_name os o v)) (sym named)
              (rotated b os f v segment there fresh ok (closed-IsArchive b w a) refl)
