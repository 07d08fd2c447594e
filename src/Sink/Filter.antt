-- ===== src/Sink/Filter.antt =====
-- internal/filesink/filter.go: the allow- and deny-lists of the file sink.
use evm_tools.Base.{
  ◌≡◌, ◌↔◌, ◌⊎◌, inl, inr, refl, arith, Bool, true, false, not, ◌&&◌, ◌||◌, Bool-cases, List, [],
  ◌∷◌, Text, if◌then◌else◌, text_eq, text_eq_refl, text_eq_sound,
}
use evm_tools.Record.Envelope.{Envelope, type_name}
use evm_tools.Stream.Run.Start.{trim_space}

pub record FilterOptions : Type 0 where
  pub include_types : List Text
  pub exclude_types : List Text
  pub include_names : List Text
  pub exclude_names : List Text

-- A set as toSet builds it: its members, trimmed, without the empty one.
unfoldable pub to_set : List Text → List Text
to_set [] = []
to_set (s ∷ items) =
    let rest = to_set items in let t = trim_space s in if text_eq t [] then rest else t ∷ rest

unfoldable pub has : List Text → Text → Bool
has [] t = false
has (s ∷ set) t = text_eq s t || has set t

abbrev pub configured : List Text → Bool
configured [] = false
configured (s ∷ set) = true

-- Filter.Allow, of the filter that NewFilter builds.
unfoldable pub allow : {D : Type 0} → FilterOptions → Envelope D → Bool
allow f env =
    let type = type_name env.type in
    if configured (to_set f.include_types) && not (has (to_set f.include_types) type)
    then false
    else if has (to_set f.exclude_types) type
    then false
    else if configured (to_set f.include_names) && not (has (to_set f.include_names) env.name)
    then false
    else not (has (to_set f.exclude_names) env.name)

-- A list of the configuration names a text: an item is the text, but for white space around it.
abbrev pub Names : List Text → Text → Type 0
Names [] t = true ≡ false
Names (s ∷ items) t = ((trim_space s ≡ t) × (text_eq t [] ≡ false)) ⊎ Names items t

either : (b : Bool) {c : Bool} → c ≡ true → (b || c) ≡ true
either true e = refl
either false e = e

has-to_set : (items : List Text) (t : Text) → (has (to_set items) t ≡ true) ↔ Names items t
unfolding has to_set
has-to_set [] t = (λ h. cc h, λ h. cc h)
has-to_set (s ∷ items) t = elim (Bool-cases (text_eq (trim_space s) [])) [
  | inl blank ↦ rw blank (
    λ h. inr ((has-to_set items t).0 h),
    λ h. elim h [
      | inl (e, other) ↦ absurd (cc (blank, other, e))
      | inr rest ↦ (has-to_set items t).1 rest
    ],
  )
  | inr kept ↦ rw kept (
    λ h. elim (Bool-cases (text_eq (trim_space s) t)) [
      | inl same ↦ let e = text_eq_sound (trim_space s) t same in inl (e, rw e at kept)
      | inr other ↦ inr ((has-to_set items t).0 (rw other at h))
    ],
    λ h. elim h [
      | inl (e, nonempty) ↦ rw (e, text_eq_refl t) refl
      | inr rest ↦ either (text_eq (trim_space s) t) ((has-to_set items t).1 rest)
    ],
  )
]

abbrev pub NotNamed : List Text → Text → Type 0
NotNamed items t = Names items t → true ≡ false

-- An allowlist without an item, or with one that is the text.
abbrev pub IsIncluded : List Text → Text → Type 0
IsIncluded items t = (configured (to_set items) ≡ false) ⊎ Names items t

no_name : (items : List Text) (t : Text) → (has (to_set items) t ≡ false) ↔ NotNamed items t
no_name items t = elim (Bool-cases (has (to_set items) t)) [
  | inl yes_it ↦ rw yes_it (λ h. cc h, λ h. absurd (cc (h ((has-to_set items t).0 yes_it))))
  | inr not_it ↦ rw not_it (λ _ h. cc (not_it, (has-to_set items t).1 h), λ _. refl)
]

included :
    (items : List Text) (t : Text)
    → ((configured (to_set items) && not (has (to_set items) t)) ≡ false) ↔ IsIncluded items t
included items t = elim (Bool-cases (configured (to_set items))) [
  | inr unset ↦ rw unset (λ _. inl refl, λ _. refl)
  | inl is_set ↦ elim (Bool-cases (has (to_set items) t)) [
    | inl found ↦ rw (is_set, found) (λ _. inr ((has-to_set items t).0 found), λ _. refl)
    | inr missing ↦
        rw (is_set, missing)
          (
            λ h. absurd (cc h),
            λ h. elim h [
              | inl off ↦ absurd (cc off)
              | inr named ↦ cc (missing, (has-to_set items t).1 named)
            ],
          )
  ]
]

four_tests :
    (a b c d : Bool)
    → ((if a then false else if b then false else if c then false else not d) ≡ true)
      ↔ ((a ≡ false) × (b ≡ false) × (c ≡ false) × (d ≡ false))
four_tests a b c d = ground arith

-- The file sink writes a record exactly if its type passes the allowlist of types and is not on their
-- denylist, and its name passes those of names, where white space around an item and blank items do
-- not count, and an allowlist without an item passes everything.
pub allow_iff :
    {D : Type 0} (f : FilterOptions) (env : Envelope D)
    → (allow f env ≡ true) ↔ (
        IsIncluded f.include_types (type_name env.type)
        × NotNamed f.exclude_types (type_name env.type)
        × IsIncluded f.include_names env.name
        × NotNamed f.exclude_names env.name)
unfolding allow
allow_iff f env =
    let type = type_name env.type in
    let tests =
      four_tests (configured (to_set f.include_types) && not (has (to_set f.include_types) type))
        (has (to_set f.exclude_types) type)
        (configured (to_set f.include_names) && not (has (to_set f.include_names) env.name))
        (has (to_set f.exclude_names) env.name) in
    (
      λ h.
          let (a, b, c, d) = tests.0 h in
          (
            (included f.include_types type).0 a,
            (no_name f.exclude_types type).0 b,
            (included f.include_names env.name).0 c,
            (no_name f.exclude_names env.name).0 d,
          ),
      λ (a, b, c, d). tests.1 (
        (included f.include_types type).1 a,
        (no_name f.exclude_types type).1 b,
        (included f.include_names env.name).1 c,
        (no_name f.exclude_names env.name).1 d,
      ),
    )
