-- ===== src/Sink/File/Names/Pigeons.antt =====
-- Counting the names that a directory has of a list of candidates.
use evm_tools.Base.{
  ℕ, zero, suc, ◌+◌, ◌≤◌, ◌<◌, ◌≡◌, refl, sym, ◌∙◌, arith, [], ◌∷◌, Text, if◌then◌else◌, text_eq,
  text_eq_sound, length, if_cases,
}
use evm_tools.Sink.File.Disk.{Disk, FileEntry, find, path_exists}

-- How many of the first `n` names are the file's.
hits : (ℕ → Text) → ℕ → FileEntry → ℕ
hits f zero file = 0
hits f (suc n) file = hits f n file + (if text_eq file.name (f n) then 1 else 0)

all_hits : (ℕ → Text) → ℕ → Disk → ℕ
all_hits f n [] = 0
all_hits f n (file ∷ disk) = hits f n file + all_hits f n disk

module _ (f : ℕ → Text) (injective : (i j : ℕ) → f i ≡ f j → i ≡ j) where
  no_hits : (n m : ℕ) (file : FileEntry) → m ≤ n → file.name ≡ f n → hits f m file ≡ 0
  unfolding hits
  no_hits n zero file h e = refl
  no_hits n (suc m) file h e =
      if_cases (λ k. hits f m file + k ≡ 0) (text_eq file.name (f m))
        (λ t. absurd (omega (arith, injective n m (sym e ∙ text_eq_sound file.name (f m) t))))
        (λ _. omega (arith, no_hits n m file (omega arith) e))

  one_hit : (n : ℕ) (file : FileEntry) → hits f n file ≤ 1
  unfolding hits
  one_hit zero file = omega arith
  one_hit (suc n) file =
      if_cases (λ k. hits f n file + k ≤ 1) (text_eq file.name (f n))
        (λ t. omega (arith, no_hits n n file (omega arith) (text_eq_sound file.name (f n) t)))
        (λ _. omega (arith, one_hit n file))

  few_hits : (n : ℕ) (disk : Disk) → all_hits f n disk ≤ length disk
  unfolding all_hits
  few_hits n [] = omega arith
  few_hits n (file ∷ disk) = omega (arith, one_hit n file, few_hits n disk)

abbrev pub taken : (ℕ → Text) → Disk → ℕ → ℕ
taken f disk i = if path_exists (f i) disk then 1 else 0

hit_more :
    (f : ℕ → Text) (n : ℕ) (disk : Disk)
    → all_hits f n disk + taken f disk n ≤ all_hits f (suc n) disk
unfolding all_hits hits path_exists find
hit_more f n [] = omega arith
hit_more f n (file ∷ disk) = ground (arith, hit_more f n disk)

-- Of the first `n` names at most as many exist as there are files.
count_taken : (ℕ → Text) → Disk → ℕ → ℕ
count_taken f disk zero = 0
count_taken f disk (suc n) = count_taken f disk n + taken f disk n

count-le-hits : (f : ℕ → Text) (n : ℕ) (disk : Disk) → count_taken f disk n ≤ all_hits f n disk
unfolding count_taken
count-le-hits f zero disk = omega arith
count-le-hits f (suc n) disk = omega (arith, count-le-hits f n disk, hit_more f n disk)

-- If every one of the first `n` names is in use, in one of two spellings, there are that many files.
pub pigeons :
    (f g : ℕ → Text) (disk : Disk) (n : ℕ)
    → ((i j : ℕ) → f i ≡ f j → i ≡ j)
    → ((i j : ℕ) → g i ≡ g j → i ≡ j)
    → ((i : ℕ) → i < n → 0 < taken f disk i + taken g disk i)
    → n ≤ length disk + length disk
unfolding count_taken
pigeons f g disk n inj_f inj_g used = omega (
  arith,
  both n used,
  count-le-hits f n disk,
  count-le-hits g n disk,
  few_hits f inj_f n disk,
  few_hits g inj_g n disk,
)
  where
    both :
        (m : ℕ)
        → ((i : ℕ) → i < m → 0 < taken f disk i + taken g disk i)
        → m ≤ count_taken f disk m + count_taken g disk m
    both zero h = omega arith
    both (suc m) h = omega (arith, both m (λ i lt. h i (omega arith)), h m (omega arith))
