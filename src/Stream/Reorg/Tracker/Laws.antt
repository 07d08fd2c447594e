-- ===== src/Stream/Reorg/Tracker/Laws.antt =====
-- What reorgTracker of internal/stream/reorg.go holds after each of its operations.
use evm_tools.Base.{
  ℕ, ◌-◌, ◌≤◌, ◌≡◌, refl, arith, Bool, false, ◌&&◌, Option, none, some, List, [], ◌∷◌, Text, ltb,
  leb, ◌==◌, if◌then◌else◌, text_eq,
}
use evm_tools.Stream.Reorg.Tracker.{
  lookup, insert, delete_if, ReorgTracker, record_hash, recorded, forget_above,
}

module _ {ℓ} {X : Type ℓ} where
  pub lookup-delete_if :
      (drop : ℕ → Bool) (n : ℕ) (entries : List (ℕ × X))
      → lookup n (delete_if drop entries) ≡ (if drop n then none else lookup n entries)
  unfolding lookup delete_if
  lookup-delete_if drop n [] = ground arith
  lookup-delete_if drop n ((i, x) ∷ entries) = ground (arith, lookup-delete_if drop n entries)

  pub lookup-insert :
      (height n : ℕ) (new : X) (entries : List (ℕ × X))
      → lookup n (insert height new entries) ≡ (if height == n then some new else lookup n entries)
  unfolding lookup insert
  lookup-insert height n new [] = refl
  lookup-insert height n new ((i, x) ∷ entries) = ground (arith, lookup-insert height n new entries)

-- Every height after recordHash: the new hash at its own, nothing below the window of `depth`
-- heights under the head, and elsewhere what was there. An empty hash changes nothing.
pub recorded-record_hash :
    (r : ReorgTracker) (n head j : ℕ) (hash : Text)
    → recorded (record_hash (some r) n hash head) j ≡ (
        if text_eq hash []
        then recorded (some r) j
        else if leb r.depth head && ltb j (head - r.depth)
        then none
        else if n == j
        then some hash
        else recorded (some r) j)
unfolding recorded record_hash
recorded-record_hash r n head j hash = ground (
  arith,
  lookup-insert n j hash r.hashes,
  lookup-delete_if (λ k. ltb k (head - r.depth)) j (insert n hash r.hashes),
)

-- Every height after forgetAbove: nothing above `n`, and below it what was there.
pub recorded-forget_above :
    (t : Option ReorgTracker) (n j : ℕ)
    → recorded (forget_above t n) j ≡ (if ltb n j then none else recorded t j)
unfolding recorded forget_above
recorded-forget_above none n j = ground arith
recorded-forget_above (some r) n j = lookup-delete_if (λ k. ltb n k) j r.hashes

pub depth-record_hash :
    (r : ReorgTracker) (n head : ℕ) (hash : Text) {r' : ReorgTracker}
    → record_hash (some r) n hash head ≡ some r'
    → r'.depth ≡ r.depth
unfolding record_hash
depth-record_hash r n head hash h = ground arith

-- The window of a tracker: it holds no height above the head, and none below the floor.
pub record IsWindow (t : Option ReorgTracker) (depth head : ℕ) : Type 0 where
  pub bounded : (j : ℕ) (h : Text) → recorded t j ≡ some h → (j ≤ head) × (head - depth ≤ j)

-- Recording the head of a chain that has not become shorter keeps the tracker within the window of
-- the new head: every tracked height lies from `head - depth` to `head`, if the hash is not empty.
pub record_hash-IsWindow :
    (r : ReorgTracker) (old head : ℕ) (hash : Text)
    → IsWindow (some r) r.depth old
    → old ≤ head
    → text_eq hash [] ≡ false
    → IsWindow (record_hash (some r) head hash head) r.depth head
record_hash-IsWindow r old head hash w le ne = record {
  bounded = λ j h e. ground (arith, recorded-record_hash r head head j hash, w.bounded j h);
}
