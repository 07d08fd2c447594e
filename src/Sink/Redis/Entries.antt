-- ===== src/Sink/Redis/Entries.antt =====
-- The entries of the stream behind appends of the Redis sink with its deduplication script
-- (internal/redissink/redis.go).
use evm_tools.Base.{
  ℕ, ◌≡◌, inl, inr, refl, ap, sym, ◌∙◌, ◌∷◌, arith, Bool, true, false, ◌||◌, Option, none, List, [],
  ◌++◌, Text, Bool-cases, append_assoc, append-nil, if◌then◌else◌, if_cases, text_eq, text_eq_sound,
}
use evm_tools.Sink.Remote.{put_all}
use evm_tools.Sink.Redis.{
  Commands, ClientConfig, Entry, dedup_script, append, put_entry, ttl_seconds, positive,
}

module _ {S : Type 0} (redis : Commands S) (stream marker field line : Text) (max_len ttl : ℕ) where
  abbrev pub script : S → Bool × S
  script s = dedup_script redis stream marker field line max_len ttl s

  pub skipped : (s : S) → redis.exists marker s ≡ true → (script s).1 ≡ s
  unfolding dedup_script
  skipped s h =
      if_cases {A = Bool × S} (λ r. r.1 ≡ s) (redis.exists marker s) (λ _. refl)
        (λ e. absurd (cc (e, h)))

  appended_new :
      (s : S)
      → redis.exists marker s ≡ false
      → (script s).1
        ≡ redis.set marker (positive ttl) (redis.xadd stream (positive max_len) field line s)
  unfolding dedup_script
  appended_new s h =
      let t = redis.set marker (positive ttl) (redis.xadd stream (positive max_len) field line s) in
      if_cases {A = Bool × S} (λ r. r.1 ≡ t) (redis.exists marker s) (λ e. absurd (cc (e, h)))
        (λ _. refl)

abbrev pub script_of : {S : Type 0} → Commands S → ClientConfig → Entry → S → S
script_of redis c e s =
    (script redis c.stream (c.dedup_prefix ++ e.key) c.field e.line c.max_len
      (ttl_seconds c.dedup_ttl) s).1

pub by_script :
    {S : Type 0} (redis : Commands S) (c : ClientConfig) (e : Entry) (s : S)
    → c.dedup ≡ true
    → put_entry redis c e s ≡ script_of redis c e s
unfolding append
by_script {S} redis c e s dedup =
    if_cases {A = Bool × S} (λ r. r.1 ≡ script_of redis c e s) c.dedup (λ _. refl)
      (λ off. absurd (cc (off, dedup)))

-- What Redis documents of EXISTS, XADD without MAXLEN and SET, for the stream's key: with `entries` the
-- values of the stream's entries in order, XADD appends one and SET of another key leaves them; a key that
-- was set exists at the time of the next command, and no command here changes whether another key does.
pub record IsRedis {S : Type 0} (redis : Commands S) (stream : Text) (entries : S → List Text)
    : Type 0 where
  pub entries-xadd :
      (field line : Text) (s : S)
      → entries (redis.xadd stream none field line s) ≡ entries s ++ line ∷ []
  pub entries-set :
      (key : Text) (ttl : Option ℕ) (s : S)
      → text_eq key stream ≡ false
      → entries (redis.set key ttl s) ≡ entries s
  pub exists-set :
      (key : Text) (ttl : Option ℕ) (s : S) → redis.exists key (redis.set key ttl s) ≡ true
  pub exists-set_ne :
      (key other : Text) (ttl : Option ℕ) (s : S)
      → text_eq key other ≡ false
      → redis.exists other (redis.set key ttl s) ≡ redis.exists other s
  pub exists-xadd :
      (field line key : Text) (s : S)
      → text_eq key stream ≡ false
      → redis.exists key (redis.xadd stream none field line s) ≡ redis.exists key s

-- The lines of the records whose key is not marked: of several records with one key, the first line.
abbrev pub first_lines : (Text → Bool) → List Entry → List Text
first_lines marked [] = []
first_lines marked (e ∷ es) =
    if marked e.key
    then first_lines marked es
    else e.line ∷ first_lines (λ k. text_eq e.key k || marked k) es

text_eq-append : (p a b : Text) → text_eq (p ++ a) (p ++ b) ≡ text_eq a b
unfolding text_eq
text_eq-append [] a b = refl
text_eq-append (x ∷ p) a b = ground (arith, text_eq-append p a b)

-- The key of a record's marker.
abbrev marker_of : ClientConfig → Text → Text
marker_of c key = c.dedup_prefix ++ key

-- The keys whose markers are there.
abbrev pub marks : {S : Type 0} → Commands S → ClientConfig → S → Text → Bool
marks redis c s key = redis.exists (marker_of c key) s

module _ {S : Type 0} (redis : Commands S) (c : ClientConfig) (entries : S → List Text)
    (laws : IsRedis redis c.stream entries) (dedup : c.dedup ≡ true) (untrimmed : c.max_len ≡ 0)
    (apart : (key : Text) → text_eq (c.dedup_prefix ++ key) c.stream ≡ false) where
  abbrev appended : Entry → S → S
  appended e s =
      redis.set (marker_of c e.key) (positive (ttl_seconds c.dedup_ttl))
        (redis.xadd c.stream none c.field e.line s)

  put_entry_marked :
      (e : Entry) (s : S) → redis.exists (marker_of c e.key) s ≡ true → put_entry redis c e s ≡ s
  put_entry_marked e s h =
      by_script redis c e s dedup
      ∙ skipped redis c.stream (marker_of c e.key) c.field e.line c.max_len
          (ttl_seconds c.dedup_ttl) s h

  put_entry_new :
      (e : Entry) (s : S)
      → redis.exists (marker_of c e.key) s ≡ false
      → put_entry redis c e s ≡ appended e s
  put_entry_new e s h =
      let ttl = ttl_seconds c.dedup_ttl in
      by_script redis c e s dedup
      ∙ appended_new redis c.stream (marker_of c e.key) c.field e.line c.max_len ttl s h
      ∙ ap
          (λ m.
            redis.set (marker_of c e.key) (positive ttl)
              (redis.xadd c.stream (positive m) c.field e.line s))
          untrimmed

  entries-appended : (e : Entry) (s : S) → entries (appended e s) ≡ entries s ++ e.line ∷ []
  entries-appended e s =
      laws.entries-set (marker_of c e.key) _ _ (apart e.key) ∙ laws.entries-xadd c.field e.line s

  marks-appended :
      (e : Entry) (s : S) (key : Text)
      → marks redis c (appended e s) key ≡ (text_eq e.key key || marks redis c s key)
  marks-appended e s key = elim (Bool-cases (text_eq e.key key)) [
    | inl same ↦
        ap (λ k. marks redis c (appended e s) k) (sym (text_eq_sound e.key key same))
        ∙ laws.exists-set (marker_of c e.key) _ _
        ∙ ap (λ b. b || marks redis c s key) (sym same)
    | inr other ↦
        laws.exists-set_ne (marker_of c e.key) (marker_of c key) _ _
          (text_eq-append c.dedup_prefix e.key key ∙ other)
        ∙ laws.exists-xadd c.field e.line (marker_of c key) s (apart key)
        ∙ ap (λ b. b || marks redis c s key) (sym other)
  ]

  -- Appends of records leave in the stream, behind what was there, the line of each record whose marker
  -- was not there, once for each key.
  pub entries-put_all :
      (es : List Entry) (s : S) (marked : Text → Bool)
      → ((key : Text) → marks redis c s key ≡ marked key)
      → entries (put_all (put_entry redis c) es s) ≡ entries s ++ first_lines marked es
  entries-put_all [] s marked same = sym (append-nil (entries s))
  entries-put_all (e ∷ es) s marked same = elim (Bool-cases (marked e.key)) [
    | inl there ↦ rw there (
        ap (λ t. entries (put_all (put_entry redis c) es t))
          (put_entry_marked e s (same e.key ∙ there))
        ∙ entries-put_all es s marked same)
    | inr new ↦
        let marked' : Text → Bool = λ k. text_eq e.key k || marked k in
        rw new (
          ap (λ t. entries (put_all (put_entry redis c) es t))
            (put_entry_new e s (same e.key ∙ new))
          ∙ entries-put_all es (appended e s) marked'
              (λ key. marks-appended e s key ∙ ap (λ b. text_eq e.key key || b) (same key))
          ∙ ap (λ l. l ++ first_lines marked' es) (entries-appended e s)
          ∙ append_assoc (entries s) (e.line ∷ []) (first_lines marked' es))
  ]
