-- ===== src/Record/Key/Join.antt =====
-- strings.Join with a separator of one byte, and that it can be undone on parts without the byte.
use mathlib.Core.List.{cons-ne-nil}
use evm_tools.Base.{sym, ℕ, ◌≡◌, refl, ◌≢◌, arith, List, [], ◌∷◌, ◌++◌, Text, All}

unfoldable pub join : ℕ → List Text → Text
join sep [] = []
join sep (p ∷ []) = p
join sep (p ∷ q ∷ ps) = p ++ sep ∷ join sep (q ∷ ps)

abbrev pub Lacks : ℕ → Text → Type 0
Lacks b = All (λ c. c ≢ b)

module _ (sep : ℕ) where
  -- The first separator ends the first part.
  pub split_first :
      (p q x y : Text) → Lacks sep p → Lacks sep q → p ++ sep ∷ x ≡ q ++ sep ∷ y → (p ≡ q) × (x ≡ y)
  split_first [] [] x y hp hq h = ground arith
  split_first [] (d ∷ q) x y hp hq h = ground arith
  split_first (c ∷ p) [] x y hp hq h = ground arith
  split_first (c ∷ p) (d ∷ q) x y hp hq h = ground (arith, split_first p q x y hp.1 hq.1)

  -- A part that lacks the separator is no part followed by one.
  pub not_split : (p q y : Text) → Lacks sep p → p ≢ q ++ sep ∷ y
  not_split [] [] y hp h = cc
  not_split [] (d ∷ q) y hp h = cc
  not_split (c ∷ p) [] y hp h = ground arith
  not_split (c ∷ p) (d ∷ q) y hp h = ground (arith, not_split p q y hp.1)

  -- Parts that lack the separator are determined by their join, if there is at least one.
  pub join_injective :
      (ps qs : List Text)
      → ps ≢ []
      → qs ≢ []
      → All (Lacks sep) ps
      → All (Lacks sep) qs
      → join sep ps ≡ join sep qs
      → ps ≡ qs
  unfolding join
  join_injective [] qs np nq hp hq h = absurd (np refl)
  join_injective (p ∷ ps) [] np nq hp hq h = absurd (nq refl)
  join_injective (p ∷ []) (q ∷ []) np nq hp hq h = cc
  join_injective (p ∷ []) (q ∷ q' ∷ qs) np nq hp hq h =
      absurd (not_split p q (join sep (q' ∷ qs)) hp.0 h)
  join_injective (p ∷ p' ∷ ps) (q ∷ []) np nq hp hq h =
      absurd (not_split q p (join sep (p' ∷ ps)) hq.0 (sym h))
  join_injective (p ∷ p' ∷ ps) (q ∷ q' ∷ qs) np nq hp hq h =
      let parts = split_first p q (join sep (p' ∷ ps)) (join sep (q' ∷ qs)) hp.0 hq.0 h in
      cc (
        parts.0,
        join_injective (p' ∷ ps) (q' ∷ qs) (cons-ne-nil p' ps) (cons-ne-nil q' qs) hp.1 hq.1
            parts.1,
      )
