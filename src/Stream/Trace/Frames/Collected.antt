-- ===== src/Stream/Trace/Frames/Collected.antt =====
-- The lists that walkCallFrames and its parts append (internal/stream/internal.go), and their members.
-- on the way to them rolled back, each under its path.
use evm_tools.Base.{◌≡◌, ◌⊎◌, inl, inr, refl, true, false, Option, none, some, List, [], ◌∷◌, ◌++◌}
use evm_tools.Stream.Trace.Frames.{InternalTransfer, join_both}

abbrev Empty : Type 0
Empty = true ≡ false

-- Membership, as a choice of a place.
abbrev pub Among : InternalTransfer → List InternalTransfer → Type 0
Among x [] = Empty
Among x (y ∷ ys) = (x ≡ y) ⊎ Among x ys

-- Membership in what a walk without an error collected.
abbrev pub Found : InternalTransfer → Option (List InternalTransfer) → Type 0
Found x none = Empty
Found x (some xs) = Among x xs

pub Among-append :
    (x : InternalTransfer) (xs ys : List InternalTransfer)
    → Among x (xs ++ ys)
    → Among x xs ⊎ Among x ys
Among-append x [] ys h = inr h
Among-append x (y ∷ xs) ys (inl e) = inl (inl e)
Among-append x (y ∷ xs) ys (inr h) = elim (Among-append x xs ys h) [
  | inl l ↦ inl (inr l)
  | inr r ↦ inr r
]

pub append-Among :
    (x : InternalTransfer) (xs ys : List InternalTransfer)
    → Among x xs ⊎ Among x ys
    → Among x (xs ++ ys)
append-Among x [] ys (inl h) = absurd (cc h)
append-Among x [] ys (inr h) = h
append-Among x (y ∷ xs) ys (inl (inl e)) = inl e
append-Among x (y ∷ xs) ys (inl (inr h)) = inr (append-Among x xs ys (inl h))
append-Among x (y ∷ xs) ys (inr h) = inr (append-Among x xs ys (inr h))

pub Found-join :
    (x : InternalTransfer) (a b : Option (List InternalTransfer))
    → Found x (join_both a b)
    → Found x a ⊎ Found x b
Found-join x none b h = absurd (cc h)
Found-join x (some xs) none h = absurd (cc h)
Found-join x (some xs) (some ys) h = Among-append x xs ys h

pub join_some :
    (a b : Option (List InternalTransfer)) (out : List InternalTransfer)
    → join_both a b ≡ some out
    → (xs ys : List InternalTransfer) × (a ≡ some xs) × (b ≡ some ys) × (xs ++ ys ≡ out)
join_some none b out h = absurd (cc h)
join_some (some xs) none out h = absurd (cc h)
join_some (some xs) (some ys) out h = (xs, ys, refl, refl, cc h)
