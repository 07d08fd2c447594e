-- ===== src/Sink/Webhook/Redact.antt =====
-- RedactURL of internal/webhooksink/poster.go.
use evm_tools.Base.{
  ℕ, ◌≡◌, ◌≢◌, refl, ap, ◌∙◌, arith, Option, none, some, [], ◌∷◌, ◌++◌, drop, Text, codes,
  if◌then◌else◌, cut_at, All, ◌==◌, if_cases, has_prefix, onto,
}

-- What stands before the byte, or all of it.
abbrev pub before : Text → Option (Text × Text) → Text
before all none = all
before all (some (front, behind)) = front

abbrev pub behind_or : Text → Option (Text × Text) → Text
behind_or all none = all
behind_or all (some (front, behind)) = behind

-- strings.Index(s, "://"): what stands before and behind the first one.
unfoldable pub cut_scheme : Text → Option (Text × Text)
cut_scheme [] = none
cut_scheme (c ∷ s) =
    let later = onto c (cut_scheme s) in
    if has_prefix (c ∷ s) (codes "://") then some ([], drop 2 s) else later

abbrev pub scheme_of : Option (Text × Text) → Text
scheme_of none = []
scheme_of (some (front, behind)) = front ++ codes "://"

-- The host, with what is left of the path.
abbrev pub host_of : Text → Option (Text × Text) → Text
host_of all none = all
host_of all (some (host, [])) = host ++ codes "/"
host_of all (some (host, c ∷ path)) = host ++ codes "/[redacted]"

-- RedactURL
unfoldable pub redact_url : Text → Text
redact_url raw =
    let url = before raw (cut_at b'?' raw) in
    let rest = behind_or url (cut_scheme url) in
    let authority = behind_or rest (cut_at b'@' rest) in
    scheme_of (cut_scheme url) ++ host_of authority (cut_at b'/' authority)

-- A text has no such byte.
abbrev pub Lacks : ℕ → Text → Type 0
Lacks b s = All (λ c. c ≢ b) s

at_byte : (b : ℕ) (s t : Text) → Lacks b s → cut_at b (s ++ b ∷ t) ≡ some (s, t)
unfolding cut_at
at_byte b [] t h =
    if_cases (λ r. r ≡ some ([], t)) (b == b) (λ _. refl) (λ e. absurd (ground arith))
at_byte b (c ∷ s) t (d, h) =
    if_cases (λ r. r ≡ some (c ∷ s, t)) (c == b) (λ e. absurd (ground arith))
      (λ _. ap (onto c) (at_byte b s t h))

before-onto :
    (c : ℕ) (s : Text) (o : Option (Text × Text)) → before (c ∷ s) (onto c o) ≡ c ∷ before s o
before-onto c s none = refl
before-onto c s (some (front, behind)) = refl

past_lacking :
    (b : ℕ) (s t : Text)
    → Lacks b s
    → before (s ++ t) (cut_at b (s ++ t)) ≡ s ++ before t (cut_at b t)
unfolding cut_at
past_lacking b [] t h = refl
past_lacking b (c ∷ s) t (d, h) =
    if_cases (λ r. before (c ∷ (s ++ t)) r ≡ c ∷ (s ++ before t (cut_at b t))) (c == b)
      (λ e. absurd (ground arith))
      (λ _. before-onto c (s ++ t) (cut_at b (s ++ t)) ∙ ap (λ l. c ∷ l) (past_lacking b s t h))

at_scheme : (s t : Text) → Lacks b':' s → cut_scheme (s ++ (codes "://" ++ t)) ≡ some (s, t)
unfolding cut_scheme has_prefix
at_scheme [] t h = refl
at_scheme (c ∷ s) t (d, h) =
    if_cases (λ r. r ≡ some (c ∷ s, t)) (has_prefix (c ∷ (s ++ (codes "://" ++ t))) (codes "://"))
      (λ e. absurd (ground arith)) (λ _. ap (onto c) (at_scheme s t h))

-- scheme://user@host/path
abbrev pub url_of : Text → Text → Text → Text → Text
url_of scheme user host path = scheme ++ (codes "://" ++ (user ++ (b'@' ∷ (host ++ (b'/' ∷ path)))))

abbrev pub Plain : Text → Type 0
Plain s = Lacks b'?' s

abbrev stripped : Text → Text
stripped s = before s (cut_at b'?' s)

url_of-stripped :
    (scheme user host : Text) (c : ℕ) (path : Text)
    → Plain scheme
    → Plain user
    → Plain host
    → c ≢ b'?'
    → stripped (url_of scheme user host (c ∷ path)) ≡ url_of scheme user host (c ∷ stripped path)
url_of-stripped scheme user host c path s u h d =
    past_lacking b'?' scheme _ s
    ∙ ap (λ l. scheme ++ l)
        (past_lacking b'?' (codes "://") _ (omega arith, (omega arith, (omega arith, tt)))
          ∙ ap (λ l. codes "://" ++ l)
              (past_lacking b'?' user _ u
                ∙ ap (λ l. user ++ l)
                    (past_lacking b'?' (b'@' ∷ []) _ (omega arith, tt)
                      ∙ ap (λ l. b'@' ∷ l)
                          (past_lacking b'?' host _ h
                            ∙ ap (λ l. host ++ l)
                                (past_lacking b'?' (b'/' ∷ c ∷ []) path (omega arith, (d, tt)))))))

-- What is printed of scheme://user@host/path?query is scheme://host/[redacted], whatever the user
-- information (which has no @ and no ?), the path (which is not empty) and the query are: none of them
-- shows.
pub redact_url-hides :
    (scheme user host : Text) (c : ℕ) (path : Text)
    → Lacks b':' scheme
    → Plain scheme
    → Lacks b'@' user
    → Plain user
    → Lacks b'/' host
    → Plain host
    → c ≢ b'?'
    → redact_url (url_of scheme user host (c ∷ path))
      ≡ (scheme ++ codes "://") ++ (host ++ codes "/[redacted]")
unfolding redact_url
redact_url-hides scheme user host c path s1 s2 u1 u2 h1 h2 d =
    let path' = stripped path in
    rw
      (
        url_of-stripped scheme user host c path s2 u2 h2 d,
        at_scheme scheme (user ++ (b'@' ∷ (host ++ (b'/' ∷ c ∷ path')))) s1,
        at_byte b'@' user (host ++ (b'/' ∷ c ∷ path')) u1,
        at_byte b'/' host (c ∷ path') h1,
      )
      refl
