-- ===== src/Stream/Reorg/Fork.antt =====
-- What resolveFork of internal/stream/reorg.go finds.
use mathlib.Core.Path.{subst}
use evm_tools.Base.{
  ltb→lt, ℕ, zero, suc, ◌+◌, ◌-◌, ◌≤◌, ◌<◌, ◌≡◌, refl, ◌⊎◌, inl, inr, arith, Bool, true, false,
  Option, none, some, List, Text, ltb, ◌==◌, ==_iff, Bool-cases, Option-cases, equal_fold,
}
use evm_tools.Record.Envelope.{ReorgData}
use evm_tools.Rpc.Types.{Answer-cases, Block, Answer, got}
use evm_tools.Stream.Reorg.Tracker.{lookup, ReorgTracker}
use evm_tools.Stream.Reorg.Walk.{walk, fork_floor, fork_verdict, resolve_fork, canonical_hash}

module _ (hashes : List (ℕ × Text)) (node : ℕ → Answer Block) where
  -- The node still has the block that was recorded at the height.
  pub record Agrees (n : ℕ) : Type 0 where
    pub recorded : Text
    pub block : Block
    pub is_recorded : lookup n hashes ≡ some recorded
    pub is_block : node n ≡ got block
    pub same_hash : equal_fold block.hash recorded ≡ true

  -- The node was asked about the height, and has another block there.
  pub record Replaced (n : ℕ) : Type 0 where
    pub recorded : Text
    pub block : Block
    pub is_recorded : lookup n hashes ≡ some recorded
    pub is_block : node n ≡ got block
    pub other_hash : equal_fold block.hash recorded ≡ false

  -- No reason to take the height for the fork: it is not tracked, or was replaced.
  abbrev pub Skipped : ℕ → Type 0
  Skipped n = (lookup n hashes ≡ none) ⊎ Replaced n

  -- The outcome of a walk over the heights from `floor` up to, and without, `top`.
  abbrev pub Found : ℕ → ℕ → Option ℕ → Type 0
  Found floor top none = (m : ℕ) → floor ≤ m → m < top → Skipped m
  Found floor top (some n) =
      (floor ≤ n) × (n < top) × Agrees n × ((m : ℕ) → n < m → m < top → Skipped m)

  -- One more height at the top, which is no reason to stop.
  Found-up :
      (floor k : ℕ) (o : Option ℕ)
      → Skipped (floor + k)
      → Found floor (floor + k) o
      → Found floor (floor + suc k) o
  Found-up floor k none skip found = λ m lo hi. elim (Bool-cases (m == floor + k)) [
    | inl e ↦ rw ((==_iff m (floor + k)).0 e) skip
    | inr ne ↦ found m lo (ground arith)
  ]
  Found-up floor k (some n) skip (lo, hi, agrees, above) = (
    lo,
    omega arith,
    agrees,
    λ m l h. elim (Bool-cases (m == floor + k)) [
      | inl e ↦ rw ((==_iff m (floor + k)).0 e) skip
      | inr ne ↦ above m l (ground arith)
    ],
  )

  fork_here :
      (floor k : ℕ) (o : Option ℕ)
      → Agrees (floor + k)
      → o ≡ some (floor + k)
      → Found floor (floor + suc k) o
  fork_here floor k none agrees h = cc
  fork_here floor k (some n) agrees h =
      let here : n ≡ floor + k = ground arith in
      rw here (omega arith, omega arith, agrees, λ m l hi. absurd (omega arith))

  walk-Found :
      (floor k : ℕ) (o : Option ℕ) → walk hashes node floor k ≡ got o → Found floor (floor + k) o
  unfolding walk
  walk-Found floor zero none h = λ m lo hi. absurd (omega arith)
  walk-Found floor zero (some n) h = cc
  walk-Found floor (suc k) o h = elim (Option-cases (lookup (floor + k) hashes)) [
    | inl untracked ↦ Found-up floor k o (inl untracked) (walk-Found floor k o (ground arith))
    | inr (recorded, tracked) ↦ elim (Answer-cases (node (floor + k))) [
      | inr (e, down) ↦ ground arith
      | inl (block, up) ↦ elim (Bool-cases (equal_fold block.hash recorded)) [
        | inl same ↦
            fork_here floor k o
              (record {
                recorded = recorded;
                block = block;
                is_recorded = tracked;
                is_block = up;
                same_hash = same;
              })
              (ground arith)
        | inr other ↦
            Found-up floor k o
              (inr (record {
                recorded = recorded;
                block = block;
                is_recorded = tracked;
                is_block = up;
                other_hash = other;
              }))
              (walk-Found floor k o (ground arith))
      ]
    ]
  ]

module _ (r : ReorgTracker) (node : ℕ → Answer Block) where
  -- Where the fork is proven it is a tracked height under the tip at which the node agrees; where it
  -- is not, it is the floor of the window, at which the node does not agree.
  abbrev Verdict : Bool → ℕ → ℕ → Type 0
  Verdict false fork tip = (fork < tip) × Agrees r.hashes node fork
  Verdict true fork tip =
      (fork ≡ fork_floor r tip)
      × ((tip ≡ fork_floor r tip) ⊎ Skipped r.hashes node (fork_floor r tip))

  -- What a reorg marker over the heights above a fork says.
  pub record IsFork (at_tip : Answer Block) (tip : ℕ) (tip_hash : Text) (d : ReorgData)
      : Type 0 where
    pub range : (d.from_block ≡ d.fork_block + 1) × (d.to_block ≡ tip)
    pub depth_exact : d.depth + d.fork_block ≡ tip
    pub depth_bounded : d.depth ≤ r.depth
    pub in_window : fork_floor r tip ≤ d.fork_block
    pub hashes : (d.old_hash ≡ tip_hash) × (d.new_hash ≡ canonical_hash at_tip)
    pub orphaned : (m : ℕ) → d.fork_block < m → m < tip → Skipped r.hashes node m
    pub verdict : Verdict d.depth_exceeded d.fork_block tip

  floor_bounds : (tip : ℕ) → (fork_floor r tip ≤ tip) × (tip ≤ fork_floor r tip + r.depth)
  unfolding fork_floor
  floor_bounds tip = ground arith

  floor_add : (tip : ℕ) → fork_floor r tip + (tip - fork_floor r tip) ≡ tip
  floor_add tip = omega (arith, floor_bounds tip)

  fork_verdict-IsFork :
      (at_tip : Answer Block) (tip : ℕ) (tip_hash : Text) (o : Option ℕ)
      → Found r.hashes node (fork_floor r tip) tip o
      → IsFork at_tip tip tip_hash (fork_verdict r at_tip tip tip_hash o)
  unfolding fork_verdict
  fork_verdict-IsFork at_tip tip tip_hash none found =
      let bounds = floor_bounds tip in
      record {
        range = (refl, refl);
        depth_exact = omega arith;
        depth_bounded = omega arith;
        in_window = omega arith;
        hashes = (refl, refl);
        orphaned = λ m lo hi. found m (omega arith) hi;
        verdict = (
          refl,
          elim (Bool-cases (ltb (fork_floor r tip) tip)) [
            | inl under ↦ inr (found (fork_floor r tip) (omega arith) (ltb→lt _ _ under))
            | inr over ↦ inl (ground arith)
          ],
        );
      }
  fork_verdict-IsFork at_tip tip tip_hash (some n) (lo, hi, agrees, above) =
      let bounds = floor_bounds tip in
      record {
        range = (refl, refl);
        depth_exact = omega arith;
        depth_bounded = omega arith;
        in_window = lo;
        hashes = (refl, refl);
        orphaned = above;
        verdict = (hi, agrees);
      }

  -- A fork that resolveFork reports is the highest tracked height under the orphaned tip at which
  -- the node still has the recorded block, or the floor of the window with the excess flagged; the
  -- marker covers exactly the heights above it up to the tip, at most `depth` of them, and no height
  -- between was found to be canonical.
  pub resolve_fork-IsFork :
      (at_tip : Answer Block) (tip : ℕ) (tip_hash : Text) (d : ReorgData)
      → resolve_fork r at_tip node tip tip_hash ≡ got d
      → IsFork at_tip tip tip_hash d
  unfolding resolve_fork
  resolve_fork-IsFork at_tip tip tip_hash d h =
      let floor = fork_floor r tip in
      elim (Answer-cases (walk r.hashes node floor (tip - floor))) [
        | inr (e, lost) ↦ ground arith
        | inl (stop, reached) ↦
            let found : Found r.hashes node floor tip stop =
              subst (λ top. Found r.hashes node floor top stop) (floor_add tip)
                (walk-Found r.hashes node floor (tip - floor) stop reached) in
            subst (IsFork at_tip tip tip_hash) (ground arith)
              (fork_verdict-IsFork at_tip tip tip_hash stop found)
      ]
