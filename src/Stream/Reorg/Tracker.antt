-- ===== src/Stream/Reorg/Tracker.antt =====
-- reorgTracker of internal/stream/reorg.go. A nil tracker is `none`; the map of hashes is an
-- association list, whose order no operation shows.
pub mod Laws
use evm_tools.Base.{
  ℕ, zero, suc, ◌+◌, ◌-◌, Bool, true, false, Option, none, some, List, [], ◌∷◌, Text, ltb, leb,
  ◌==◌, if◌then◌else◌, text_eq,
}

module _ {ℓ} {X : Type ℓ} where
  -- for k := range m { if drop(k) { delete(m, k) } }
  unfoldable pub delete_if : (ℕ → Bool) → List (ℕ × X) → List (ℕ × X)
  delete_if drop [] = []
  delete_if drop ((i, x) ∷ entries) =
      let kept = delete_if drop entries in if drop i then kept else (i, x) ∷ kept

  -- m[k] = v
  unfoldable pub insert : (height : ℕ) (new : X) → List (ℕ × X) → List (ℕ × X)
  insert height new [] = (height, new) ∷ []
  insert height new ((i, x) ∷ entries) =
      let behind = insert height new entries in
      if i == height then (height, new) ∷ entries else (i, x) ∷ behind

  -- m[k]
  unfoldable pub lookup : (height : ℕ) → List (ℕ × X) → Option X
  lookup height [] = none
  lookup height ((i, x) ∷ entries) =
      let behind = lookup height entries in if i == height then some x else behind

pub record ReorgTracker : Type 0 where
  pub depth : ℕ
  pub hashes : List (ℕ × Text)

-- newReorgTracker
unfoldable pub new_reorg_tracker : ℕ → Option ReorgTracker
new_reorg_tracker depth = if depth == 0 then none else some (record { depth = depth; hashes = [] })

-- recordHash
unfoldable pub record_hash : Option ReorgTracker → ℕ → Text → ℕ → Option ReorgTracker
record_hash none n hash head = none
record_hash (some r) n hash head =
    if text_eq hash []
    then some r
    else let hashes = insert n hash r.hashes in
      if leb r.depth head
      then some (record r { hashes = delete_if (λ k. ltb k (head - r.depth)) hashes })
      else some (record r { hashes = hashes })

-- recorded
unfoldable pub recorded : Option ReorgTracker → ℕ → Option Text
recorded none n = none
recorded (some r) n = lookup n r.hashes

-- forgetAbove
unfoldable pub forget_above : Option ReorgTracker → ℕ → Option ReorgTracker
forget_above none n = none
forget_above (some r) n = some (record r { hashes = delete_if (λ k. ltb n k) r.hashes })
