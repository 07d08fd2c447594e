-- ===== src/Sink/File/Run/Closed.antt =====
-- The writer of the file sink behind a rotation that has failed (internal/filesink/writer.go).
use evm_tools.Base.{
  ◌≡◌, ◌⊎◌, inl, inr, refl, Bool, true, false, not, [], ◌∷◌, ◌++◌, Text, if_cases, if_either,
  Option, none, some, List, ◌+◌, length,
}
use evm_tools.Base.Exec.{Outcome, done, failed, panicked, continue, modify, ◌>>◌}
use evm_tools.Sink.File.Disk.{find}
use evm_tools.Sink.File.Names.{rotated_name}
use evm_tools.Sink.File.Writer.Prune.{prune}
use evm_tools.Sink.File.Writer.{
  IoError, RotateConfig, Writer, Os, Act, attempt, closed_error, append_line, write, should_rotate,
  rotate, close_handle, opened, open_active, renamed_to, move_away, created, active,
}

module _ (c : RotateConfig) where
  -- The action has succeeded, or the handle is closed.
  abbrev OpenOrClosed : Outcome IoError (Unit {0}) × Writer → Type 0
  OpenOrClosed r = (r.0 ≡ done tt) ⊎ (r.1.is_open ≡ false)

  abbrev IsShut : Outcome IoError (Unit {0}) × Writer → Type 0
  IsShut r = r.1.is_open ≡ false

  renamed-IsShut :
      (os : Os) (o : Option Text) (w : Writer) → w.is_open ≡ false → IsShut (renamed_to c os o w)
  renamed-IsShut os none w h = h
  renamed-IsShut os (some segment) w h = by_error os.renaming
    where
      by_error : (e : Option IoError) → IsShut ((attempt e >> move_away c os segment) w)
      by_error (some e) = h
      by_error none = if_either (λ (v : Writer). v.is_open ≡ false) c.compress h h

  opened-OpenOrClosed : (os : Os) (w : Writer) → w.is_open ≡ false → OpenOrClosed (opened c os w)
  unfolding opened
  opened-OpenOrClosed os w h = by_stat os.stating
    where
      by_stat :
          (e : Option IoError)
          → OpenOrClosed (elim e [
            | some x ↦
                (failed x, record w { disk = created c.name os.now (find c.name w.disk) w.disk })
            | none ↦ (
              done tt,
              record w {
                disk = created c.name os.now (find c.name w.disk) w.disk;
                is_open = true;
                size = length (active c (created c.name os.now (find c.name w.disk) w.disk));
                opened_at = os.now;
              },
            )
          ])
      by_stat (some x) = inr h
      by_stat none = inl refl

  open-OpenOrClosed : (os : Os) (w : Writer) → w.is_open ≡ false → OpenOrClosed (open_active c os w)
  unfolding open_active
  open-OpenOrClosed os w h = by_errors os.making_dir os.opening
    where
      by_errors : (d o : Option IoError) → OpenOrClosed ((attempt d >> attempt o >> opened c os) w)
      by_errors (some e) o = inr h
      by_errors none (some e) = inr h
      by_errors none none = opened-OpenOrClosed os w h

  then_prune :
      (os : Os) (r : Outcome IoError (Unit {0}) × Writer)
      → OpenOrClosed r
      → OpenOrClosed (
          continue r.0
            (λ _.
              modify (λ w. record w { disk = prune c.name c.max_backups os.listing_fails w.disk }))
            r.1)
  then_prune os (done x, w) h = inl refl
  then_prune os (failed e, w) (inl h) = cc h
  then_prune os (failed e, w) (inr h) = inr h
  then_prune os (panicked, w) (inl h) = cc h
  then_prune os (panicked, w) (inr h) = inr h

  after_rename :
      (os : Os) (r : Outcome IoError (Unit {0}) × Writer)
      → IsShut r
      → OpenOrClosed (
          ((λ (v : Writer). r)
              >> open_active c os
              >> modify
                  (λ w. record w { disk = prune c.name c.max_backups os.listing_fails w.disk }))
            r.1)
  after_rename os (done x, w) h = then_prune os (open_active c os w) (open-OpenOrClosed os w h)
  after_rename os (failed e, w) h = inr h
  after_rename os (panicked, w) h = inr h

  after_close :
      (os : Os) (r : Outcome IoError (Unit {0}) × Writer)
      → IsShut r
      → OpenOrClosed (
          ((λ (v : Writer). r)
              >> (λ v. renamed_to c os (rotated_name c.name os.stamp v.disk) v)
              >> open_active c os
              >> modify
                  (λ w. record w { disk = prune c.name c.max_backups os.listing_fails w.disk }))
            r.1)
  after_close os (done x, w) h =
      after_rename os (renamed_to c os (rotated_name c.name os.stamp w.disk) w)
        (renamed-IsShut os (rotated_name c.name os.stamp w.disk) w h)
  after_close os (failed e, w) h = inr h
  after_close os (panicked, w) h = inr h

  close-IsShut : (os : Os) (w : Writer) → IsShut (close_handle c os w)
  unfolding close_handle
  close-IsShut os w = if_cases IsShut w.is_open (λ _. by_error os.closing) (λ h. h)
    where
      by_error : (e : Option IoError) → IsShut (attempt e (record w { is_open = false }))
      by_error (some e) = refl
      by_error none = refl

  rotate-OpenOrClosed : (os : Os) (w : Writer) → OpenOrClosed (rotate c os w)
  unfolding rotate
  rotate-OpenOrClosed os w = after_close os (close_handle c os w) (close-IsShut os w)

  -- The action has failed with the error of a closed file, and has left the handle closed.
  abbrev FailsClosed : Outcome IoError (Unit {0}) × Writer → Type 0
  FailsClosed r = (r.0 ≡ failed closed_error) × (r.1.is_open ≡ false)

  shut_rotate : (os : Os) (w : Writer) → w.is_open ≡ false → FailsClosed (rotate c os w)
  unfolding rotate close_handle
  shut_rotate os w h =
      if_cases {A = Outcome IoError (Unit {0}) × Writer}
        (λ r. FailsClosed (
          ((λ (v : Writer). r)
              >> (λ v. renamed_to c os (rotated_name c.name os.stamp v.disk) v)
              >> open_active c os
              >> modify
                  (λ v. record v { disk = prune c.name c.max_backups os.listing_fails v.disk }))
            r.1))
        w.is_open (λ o. absurd (cc (o, h))) (λ _. (refl, h))

  shut_append :
      (os : Os) (line : Text) (w : Writer)
      → w.is_open ≡ false
      → FailsClosed (append_line c os line w)
  unfolding append_line
  shut_append os line w h =
      if_cases FailsClosed (not w.is_open) (λ _. (refl, h))
        (λ o. absurd (cc (negated w.is_open o, h)))
    where
      negated : (b : Bool) → not b ≡ false → b ≡ true
      negated true e = refl
      negated false e = cc e

  failed_first :
      (os : Os) (line : Text) (r : Outcome IoError (Unit {0}) × Writer)
      → FailsClosed r
      → FailsClosed (continue r.0 (λ _. append_line c os line) r.1)
  failed_first os line (done x, w) (h, shut) = cc h
  failed_first os line (failed e, w) h = h
  failed_first os line (panicked, w) (h, shut) = cc h

  shut_write :
      (os : Os) (line : Text) (w : Writer) → w.is_open ≡ false → FailsClosed (write c os line w)
  unfolding write
  shut_write os line w h =
      let whole = line ++ b'\n' ∷ [] in
      if_either
        (λ (act : Act). FailsClosed (continue (act w).0 (λ _. append_line c os whole) (act w).1))
        (should_rotate c os (length line + 1) w)
        (failed_first os whole (rotate c os w) (shut_rotate os w h)) (shut_append os whole w h)

  -- The writer behind calls of Write, one after the other.
  abbrev pub after_writes : List (Os × Text) → Writer → Writer
  after_writes [] w = w
  after_writes ((os, line) ∷ calls) w = after_writes calls (write c os line w).1

  stays_shut :
      (calls : List (Os × Text)) (w : Writer)
      → w.is_open ≡ false
      → (after_writes calls w).is_open ≡ false
  stays_shut [] w h = h
  stays_shut ((os, line) ∷ calls) w h =
      stays_shut calls (write c os line w).1 (shut_write os line w h).1

  -- When a rotation fails, for whatever error and at whatever step, a full disk included, every later
  -- write of the writer, behind any number of other ones, fails with the error of a closed file,
  -- whatever the operating system would answer then: the retry of a full disk cannot succeed.
  pub rotate_failed_lem :
      (os os' : Os) (line : Text) (calls : List (Os × Text)) (w : Writer) (e : IoError)
      → (rotate c os w).0 ≡ failed e
      → (write c os' line (after_writes calls (rotate c os w).1)).0 ≡ failed closed_error
  rotate_failed_lem os os' line calls w e h =
      (shut_write os' line (after_writes calls (rotate c os w).1)
        (stays_shut calls (rotate c os w).1 (closed (rotate-OpenOrClosed os w)))).0
    where
      closed : OpenOrClosed (rotate c os w) → (rotate c os w).1.is_open ≡ false
      closed (inl ok) = absurd (cc (h, ok))
      closed (inr shut) = shut
