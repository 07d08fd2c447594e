-- ===== src/Sink/File/Names/Fresh.antt =====
-- The search for the name of a rotated segment (rotatedName of internal/filesink/writer.go).
use evm_tools.Base.{
  ℕ, zero, suc, ◌+◌, ◌*◌, ◌<◌, ◌≡◌, inl, inr, refl, sym, ap, subst, arith, true, false, none, some,
  [], ◌∷◌, ◌++◌, Text, codes, decimal, decimal_injective, length, length-append, add-zero, add-suc,
  suc-add, zero-add, Option-cases,
}
use evm_tools.Sink.File.Disk.{Disk}
use evm_tools.Sink.File.Names.{candidate, is_fresh, search_name, rotated_name, base_name, extension}
use evm_tools.Sink.File.Names.Pigeons.{pigeons, taken}

append_left : (s t u : Text) → s ++ t ≡ s ++ u → t ≡ u
append_left [] t u h = h
append_left (c ∷ s) t u h = append_left s t u (cc h)

-- Two decimals before the same text.
append_right : (s t u : Text) → s ++ u ≡ t ++ u → s ≡ t
append_right [] [] u h = refl
append_right [] (d ∷ t) u h = absurd (omega (arith, ap length h, length-append (d ∷ t) u))
append_right (c ∷ s) [] u h = absurd (omega (arith, ap length h, length-append (c ∷ s) u))
append_right (c ∷ s) (d ∷ t) u h =
    let rest : s ++ u ≡ t ++ u = cc h in
    let head : c ≡ d = cc h in let same = append_right s t u rest in cc

numbered : Text → Text → Text → ℕ → Text
numbered base stamp ext i = candidate base stamp ext (suc i)

numbered_injective :
    (base stamp ext : Text) (i j : ℕ)
    → numbered base stamp ext i ≡ numbered base stamp ext j
    → i ≡ j
unfolding numbered candidate
numbered_injective base stamp ext i j h =
    let a = append_left base _ _ h in
    let b = append_left (codes "-") _ _ a in
    let c = append_left stamp _ _ b in
    let d = append_left (codes "-") _ _ c in
    let e =
      decimal_injective (suc i) (suc j) (append_right (decimal (suc i)) (decimal (suc j)) ext d) in
    omega arith

-- Whatever the candidates are, a name that the loop gives is not in use, plain or compressed.
search_name-fresh :
    (disk : Disk) (candidates : ℕ → Text) (tries i : ℕ) (name : Text)
    → search_name disk candidates tries i ≡ some name
    → is_fresh disk name ≡ true
unfolding search_name
search_name-fresh disk candidates zero i name h = cc h
search_name-fresh disk candidates (suc tries) i name h =
    ground (arith, search_name-fresh disk candidates tries (suc i) name)

-- Without a result all the candidates tried are in use.
search_name-used :
    (disk : Disk) (candidates : ℕ → Text) (tries i k : ℕ)
    → search_name disk candidates tries i ≡ none
    → k < tries
    → is_fresh disk (candidates (i + k)) ≡ false
unfolding search_name
search_name-used disk candidates zero i k h lt = absurd (omega arith)
search_name-used disk candidates (suc tries) i zero h lt =
    subst (λ j. is_fresh disk (candidates j) ≡ false) (sym (add-zero i)) (ground arith)
search_name-used disk candidates (suc tries) i (suc k) h lt =
    subst (λ j. is_fresh disk (candidates j) ≡ false) (sym (add-suc i k))
      (subst (λ j. is_fresh disk (candidates j) ≡ false) (suc-add i k)
        (search_name-used disk candidates tries (suc i) k (ground arith) (omega arith)))

used_either :
    (disk : Disk) (f g : ℕ → Text) (i : ℕ)
    → (g i ≡ f i ++ codes ".gz")
    → is_fresh disk (f i) ≡ false
    → 0 < taken f disk i + taken g disk i
unfolding is_fresh
used_either disk f g i e h = rw e (ground arith)

zipped_injective :
    (f : ℕ → Text)
    → ((i j : ℕ) → f i ≡ f j → i ≡ j)
    → (i j : ℕ) → f i ++ codes ".gz" ≡ f j ++ codes ".gz"
    → i ≡ j
zipped_injective f injective i j h = injective i j (append_right (f i) (f j) (codes ".gz") h)

pub rotated_name_lem :
    (name stamp : Text) (disk : Disk)
    → (new : Text) × (rotated_name name stamp disk ≡ some new) × (is_fresh disk new ≡ true)
unfolding rotated_name numbered
rotated_name_lem name stamp disk =
    let base = base_name name in
    let ext = extension name in
    let f = numbered base stamp ext in
    let tries : ℕ = 2 * length disk + 2 in
    elim (Option-cases (rotated_name name stamp disk)) [
      | inr (new, e) ↦ (new, e, search_name-fresh disk (candidate base stamp ext) tries 0 new e)
      | inl failed ↦ absurd (
          omega (
            arith,
            pigeons f (λ i. f i ++ codes ".gz") disk (2 * length disk + 1)
                (numbered_injective base stamp ext)
                (zipped_injective f (numbered_injective base stamp ext))
                (λ i lt.
                  used_either disk f (λ j. f j ++ codes ".gz") i refl
                    (subst (λ j. is_fresh disk (candidate base stamp ext j) ≡ false)
                      (zero-add (suc i))
                      (search_name-used disk (candidate base stamp ext) tries 0 (suc i) failed
                        (omega arith)))),
          ))
    ]
