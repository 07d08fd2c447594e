-- ===== src/Sink/Postgres/Tables.antt =====
-- ValidateTableName and quoteIdent of internal/pgsink/postgres.go.
use evm_tools.Base.{
  ℕ, ◌≡◌, ◌⊎◌, inl, inr, refl, sym, ap, ◌∙◌, subst, append-nil, append_assoc, ◌≤◌, arith, Bool,
  true, false, ◌&&◌, ◌||◌, ◌==◌, leb, Option, none, some, [], ◌∷◌, ◌++◌, Text, if◌then◌else◌,
  if_cases, cut_at, All, onto,
}

unfoldable pub is_letter : ℕ → Bool
is_letter c = (leb b'A' c && leb c b'Z') || ((leb b'a' c && leb c b'z') || (c == b'_'))

unfoldable pub is_word_byte : ℕ → Bool
unfolding is_letter
is_word_byte c = is_letter c || (leb b'0' c && leb c b'9')

unfoldable pub all_word : Text → Bool
all_word [] = true
all_word (c ∷ s) = is_word_byte c && all_word s

-- [A-Za-z_][A-Za-z0-9_]*
unfoldable pub is_identifier : Text → Bool
unfolding all_word
is_identifier [] = false
is_identifier (c ∷ s) = is_letter c && all_word s

abbrev pub both_identifiers : Text → Option (Text × Text) → Bool
both_identifiers table none = is_identifier table
both_identifiers table (some (schema, name)) = is_identifier schema && is_identifier name

-- ValidateTableName: whether there is no error.
unfoldable pub validate_table_name : Text → Bool
validate_table_name table = both_identifiers table (cut_at b'.' table)

unfoldable pub quoted : Text → Text
quoted part = b'"' ∷ (part ++ b'"' ∷ [])

-- quoteIdent: each part between dots in quotes.
unfoldable pub quote_from : Text → Text → Text
unfolding quoted
quote_from part [] = quoted part
quote_from part (c ∷ s) =
    let next = quote_from [] s in
    let same = quote_from (part ++ c ∷ []) s in
    if c == b'.' then quoted part ++ b'.' ∷ next else same

unfoldable pub quote_ident : Text → Text
unfolding quote_from
quote_ident table = quote_from [] table

-- What an identifier is made of: letters, digits and underscores, so no quotes, dots or spaces.
abbrev pub IsWord : ℕ → Type 0
IsWord c =
    ((b'A' ≤ c) × (c ≤ b'Z'))
    ⊎ (((b'a' ≤ c) × (c ≤ b'z')) ⊎ ((c ≡ b'_') ⊎ ((b'0' ≤ c) × (c ≤ b'9'))))

is_word_byte-IsWord : (c : ℕ) → is_word_byte c ≡ true → IsWord c
unfolding is_word_byte is_letter
is_word_byte-IsWord c h = ground arith

all_word-IsWord : (s : Text) → all_word s ≡ true → All IsWord s
unfolding all_word
all_word-IsWord [] h = tt
all_word-IsWord (c ∷ s) h =
    let (first, rest) = both (is_word_byte c) (all_word s) h in
    (is_word_byte-IsWord c first, all_word-IsWord s rest)
  where
    both : (a b : Bool) → (a && b) ≡ true → (a ≡ true) × (b ≡ true)
    both true b h = (refl, h)
    both false b h = cc h

identifier_word : (s : Text) → is_identifier s ≡ true → all_word s ≡ true
unfolding is_identifier all_word is_word_byte
identifier_word [] h = refl
identifier_word (c ∷ s) h = ground arith

no_dot : (c : ℕ) → is_word_byte c ≡ true → (c == b'.') ≡ false
unfolding is_word_byte is_letter
no_dot c h = ground arith

quote_words : (part s : Text) → all_word s ≡ true → quote_from part s ≡ quoted (part ++ s)
unfolding quote_from all_word
quote_words part [] h = ap quoted (sym (append-nil part))
quote_words part (c ∷ s) h =
    if_cases (λ r. r ≡ quoted (part ++ c ∷ s)) (c == b'.') (λ e. absurd (ground (arith, no_dot c)))
      (λ _.
        quote_words (part ++ c ∷ []) s (ground arith) ∙ ap quoted (append_assoc part (c ∷ []) s))

quote_dotted :
    (part s t : Text)
    → all_word s ≡ true
    → all_word t ≡ true
    → quote_from part (s ++ b'.' ∷ t) ≡ quoted (part ++ s) ++ b'.' ∷ quoted t
unfolding quote_from all_word
quote_dotted part [] t h k =
    ap (λ x. quoted part ++ b'.' ∷ x) (quote_words [] t k)
    ∙ ap (λ x. quoted x ++ b'.' ∷ quoted t) (sym (append-nil part))
quote_dotted part (c ∷ s) t h k =
    if_cases (λ r. r ≡ quoted (part ++ c ∷ s) ++ b'.' ∷ quoted t) (c == b'.')
      (λ e. absurd (ground (arith, no_dot c)))
      (λ _.
        quote_dotted (part ++ c ∷ []) s t (ground arith) k
        ∙ ap (λ x. quoted x ++ b'.' ∷ quoted t) (append_assoc part (c ∷ []) s))

onto-some :
    (c : ℕ) (o : Option (Text × Text)) (x y : Text)
    → onto c o ≡ some (x, y)
    → (z : Text) × (x ≡ c ∷ z) × (o ≡ some (z, y))
onto-some c none x y h = cc h
onto-some c (some (z, w)) x y h = (z, cc h, cc h)

abbrev cut : Text → Text → Option (Text × Text)
cut x y = some (x, y)

-- What is cut is what was there.
cut_at-joined : (b : ℕ) (s x y : Text) → cut_at b s ≡ some (x, y) → s ≡ x ++ b ∷ y
unfolding cut_at
cut_at-joined b [] x y h = cc h
cut_at-joined b (c ∷ s) x y h =
    if_cases {A = Option (Text × Text)} (λ r. r ≡ some (x, y) → c ∷ s ≡ x ++ b ∷ y) (c == b)
      (λ e k. at_first e k)
      (λ _ k.
        let (z, front, rest) = onto-some c (cut_at b s) x y k in
        ap (λ l. c ∷ l) (cut_at-joined b s z y rest) ∙ ap (λ l. l ++ b ∷ y) (sym front))
      h
  where
    at_first : (c == b) ≡ true → cut [] s ≡ some (x, y) → c ∷ s ≡ x ++ b ∷ y
    at_first e k =
        let p : [] ≡ x = cc k in
        let q : s ≡ y = cc k in
        let d : c ≡ b = ground arith in subst (λ z. c ∷ s ≡ z ++ b ∷ y) p (cc (d, q))

-- A table name that is accepted is quoted to one identifier in quotes, or to two with a dot between
-- them, each made of letters, digits and underscores only: nothing else reaches the statement.
pub quote_ident-IsSafe :
    (table : Text)
    → validate_table_name table ≡ true
    → ((quote_ident table ≡ quoted table) × All IsWord table)
      ⊎ ((schema : Text) × (name : Text) × (quote_ident table ≡ quoted schema ++ b'.' ∷ quoted name)
          × All IsWord schema
          × All IsWord name)
unfolding validate_table_name quote_ident
quote_ident-IsSafe table h = by_cut (cut_at b'.' table) refl h
  where
    both : (a b : Bool) → (a && b) ≡ true → (a ≡ true) × (b ≡ true)
    both true b h = (refl, h)
    both false b h = cc h

    by_cut :
        (o : Option (Text × Text))
        → cut_at b'.' table ≡ o
        → both_identifiers table o ≡ true
        → ((quote_from [] table ≡ quoted table) × All IsWord table)
          ⊎ ((schema : Text) × (name : Text) × (quote_from [] table
                ≡ quoted schema ++ b'.' ∷ quoted name)
              × All IsWord schema
              × All IsWord name)
    by_cut none e ok =
        let w = identifier_word table ok in inl (quote_words [] table w, all_word-IsWord table w)
    by_cut (some (schema, name)) e ok =
        let (s, n) = both (is_identifier schema) (is_identifier name) ok in
        let ws = identifier_word schema s in
        let wn = identifier_word name n in
        inr (
          schema,
          name,
          ap (λ x. quote_from [] x) (cut_at-joined b'.' table schema name e)
              ∙ quote_dotted [] schema name ws wn,
          all_word-IsWord schema ws,
          all_word-IsWord name wn,
        )
