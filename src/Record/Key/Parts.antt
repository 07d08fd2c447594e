-- ===== src/Record/Key/Parts.antt =====
-- The components of the keys of internal/record/key.go: each is determined by its text, and none
-- but the configured and the hexadecimal ones can hold a separator.
use mathlib.Core.Path.{subst}
use mathlib.Core.List.{cons-ne-nil}
use evm_tools.Base.{
  ℤ, pos, negsuc, format_int, ℕ, ◌+◌, ◌≡◌, refl, sym, ap, ◌∙◌, ◌↔◌, ◌≢◌, arith, Option, none, some,
  List, [], ◌∷◌, ◌++◌, map, Text, All, All-append, decimal, IsDigit, decimal-IsDigit,
  decimal_injective, decimal-ne-nil,
}
use evm_tools.Record.Key.{log_index_str, trace_addr_str, dash}
use evm_tools.Record.Key.Join.{join, Lacks, join_injective}

abbrev pub IsNatural : ℤ → Type 0
IsNatural (pos n) = Unit
IsNatural (negsuc n) = ⊥

digits-Lacks : (b : ℕ) (s : Text) → ¬ IsDigit b → All IsDigit s → Lacks b s
digits-Lacks b [] h hs = tt
digits-Lacks b (c ∷ s) h hs = (λ e. h (rw (← e) hs.0), digits-Lacks b s h hs.1)

pub decimal-Lacks : (b n : ℕ) → ¬ IsDigit b → Lacks b (decimal n)
decimal-Lacks b n h = digits-Lacks b (decimal n) h (decimal-IsDigit n)

-- A decimal does not begin with a byte that is no digit.
decimal-ne-cons : (n b : ℕ) (s : Text) → ¬ IsDigit b → decimal n ≢ b ∷ s
decimal-ne-cons n b s h e = h (subst (All IsDigit) e (decimal-IsDigit n)).0

pub format_int_injective : (a b : ℤ) → format_int a ≡ format_int b → a ≡ b
unfolding format_int
format_int_injective (pos n) (pos m) h = ap pos (decimal_injective n m h)
format_int_injective (pos n) (negsuc m) h =
    absurd (decimal-ne-cons n b'-' (decimal (m + 1)) (omega arith) h)
format_int_injective (negsuc n) (pos m) h =
    absurd (decimal-ne-cons m b'-' (decimal (n + 1)) (omega arith) (sym h))
format_int_injective (negsuc n) (negsuc m) h =
    ap negsuc (omega (arith, decimal_injective (n + 1) (m + 1) (cc)))

pub format_int-Lacks : (a : ℤ) → Lacks b'|' (format_int a)
unfolding format_int
format_int-Lacks (pos n) = decimal-Lacks b'|' n (omega arith)
format_int-Lacks (negsuc n) = (omega arith, decimal-Lacks b'|' (n + 1) (omega arith))

pub format_int-Lacks_dash : (a : ℤ) → IsNatural a → Lacks b'-' (format_int a)
unfolding format_int
format_int-Lacks_dash (pos n) h = decimal-Lacks b'-' n (omega arith)
format_int-Lacks_dash (negsuc n) h = absurd h

log_index_ne : (n : ℕ) → b'_' ∷ [] ≢ decimal n
log_index_ne n h = decimal-ne-cons n b'_' [] (omega arith) (sym h)

pub log_index_str_injective : (a b : Option ℕ) → log_index_str a ≡ log_index_str b → a ≡ b
unfolding log_index_str
log_index_str_injective none none h = refl
log_index_str_injective none (some n) h = absurd (log_index_ne n h)
log_index_str_injective (some n) none h = absurd (log_index_ne n (sym h))
log_index_str_injective (some n) (some m) h = ap some (decimal_injective n m h)

pub log_index_str-Lacks : (a : Option ℕ) → Lacks b'|' (log_index_str a)
unfolding log_index_str
log_index_str-Lacks none = omega arith
log_index_str-Lacks (some n) = decimal-Lacks b'|' n (omega arith)

-- A path that traces report: its steps are not negative.
abbrev pub IsPath : List ℤ → Type 0
IsPath = All IsNatural

map-Lacks_dash : (path : List ℤ) → IsPath path → All (Lacks b'-') (map format_int path)
map-Lacks_dash [] h = tt
map-Lacks_dash (n ∷ path) h = (format_int-Lacks_dash n h.0, map-Lacks_dash path h.1)

map-format_int_injective : (xs ys : List ℤ) → map format_int xs ≡ map format_int ys → xs ≡ ys
map-format_int_injective [] [] h = refl
map-format_int_injective [] (y ∷ ys) h = cc
map-format_int_injective (x ∷ xs) [] h = cc
map-format_int_injective (x ∷ xs) (y ∷ ys) h =
    ground (arith, format_int_injective x y, map-format_int_injective xs ys)

-- What begins with a byte that is not an underscore.
record Head (s : Text) : Type 0 where
  first : ℕ
  rest : Text
  is_head : s ≡ first ∷ rest
  not_underscore : first ≢ b'_'

digits-Head : (s : Text) → s ≢ [] → All IsDigit s → Head s
digits-Head [] h hs = absurd (h refl)
digits-Head (c ∷ s) h hs = record {
  first = c;
  rest = s;
  is_head = refl;
  not_underscore = ground arith;
}

format_int-Head : (a : ℤ) → Head (format_int a)
unfolding format_int
format_int-Head (pos n) = digits-Head (decimal n) (decimal-ne-nil n) (decimal-IsDigit n)
format_int-Head (negsuc n) = record {
  first = b'-';
  rest = decimal (n + 1);
  is_head = refl;
  not_underscore = omega arith;
}

trace_addr-ne-underscore : (n : ℤ) (path : List ℤ) → trace_addr_str (n ∷ path) ≢ b'_' ∷ []
unfolding trace_addr_str join
trace_addr-ne-underscore n [] h =
    let f = format_int-Head n in f.not_underscore (ground (arith, f.is_head))
trace_addr-ne-underscore n (m ∷ path) h =
    let f = format_int-Head n in f.not_underscore (ground (arith, f.is_head))

pub trace_addr_str_injective :
    (xs ys : List ℤ) → IsPath xs → IsPath ys → trace_addr_str xs ≡ trace_addr_str ys → xs ≡ ys
unfolding trace_addr_str
trace_addr_str_injective [] [] hx hy h = refl
trace_addr_str_injective [] (y ∷ ys) hx hy h = absurd (trace_addr-ne-underscore y ys (sym h))
trace_addr_str_injective (x ∷ xs) [] hx hy h = absurd (trace_addr-ne-underscore x xs h)
trace_addr_str_injective (x ∷ xs) (y ∷ ys) hx hy h = map-format_int_injective (x ∷ xs) (y ∷ ys) (
    join_injective dash (map format_int (x ∷ xs)) (map format_int (y ∷ ys)) (cons-ne-nil _ _)
      (cons-ne-nil _ _) (map-Lacks_dash (x ∷ xs) hx) (map-Lacks_dash (y ∷ ys) hy) h)

append-Lacks : (b : ℕ) (s t : Text) → Lacks b s → Lacks b t → Lacks b (s ++ t)
append-Lacks b = All-append (λ c. c ≢ b)

join-Lacks : (ps : List ℤ) → Lacks b'|' (join dash (map format_int ps))
unfolding join
join-Lacks [] = tt
join-Lacks (n ∷ []) = format_int-Lacks n
join-Lacks (n ∷ m ∷ ps) =
    append-Lacks b'|' (format_int n) (dash ∷ join dash (map format_int (m ∷ ps)))
      (format_int-Lacks n) (omega arith, join-Lacks (m ∷ ps))

pub trace_addr_str-Lacks : (path : List ℤ) → Lacks b'|' (trace_addr_str path)
unfolding trace_addr_str
trace_addr_str-Lacks [] = omega arith
trace_addr_str-Lacks (n ∷ path) = join-Lacks (n ∷ path)

-- A log index and a call path are written alike exactly if both are absent or the path is one step.
pub log_index-trace_addr :
    (n : ℕ) (path : List ℤ)
    → IsPath path
    → (log_index_str (some n) ≡ trace_addr_str path) ↔ (path ≡ pos n ∷ [])
unfolding log_index_str
log_index-trace_addr n path h = (
  λ e. trace_addr_str_injective path (pos n ∷ []) h (tt, tt) (sym e ∙ one_step),
  λ e. one_step' e,
)
  where
    one_step : decimal n ≡ trace_addr_str (pos n ∷ [])
    one_step = unfold trace_addr_str join format_int in refl

    one_step' : path ≡ pos n ∷ [] → decimal n ≡ trace_addr_str path
    one_step' e = one_step ∙ ap trace_addr_str (sym e)
