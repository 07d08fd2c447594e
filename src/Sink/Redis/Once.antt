-- ===== src/Sink/Redis/Once.antt =====
-- The deduplication script of the Redis sink (dedupScript of internal/redissink/redis.go).
use evm_tools.Base.{
  ℕ, ◌≡◌, ◌≢◌, ◌⊎◌, ◌+◌, inl, inr, suc, take, length, text_eq, false, refl, ap, sym, ◌∙◌, ◌∷◌,
  has_prefix, to_upper, Bool, true, Option, List, [], ◌++◌, Text, if_cases, if_either,
}
use evm_tools.Sink.Loop.{World, Input, Ended, all_delivered, confirmed}
use evm_tools.Sink.Loop.Options.{SinkOptions}
use evm_tools.Sink.Loop.Wanted.{messages, IsWhole}
use evm_tools.Sink.Redis.Entries.{
  IsRedis, first_lines, marks, entries-put_all, script, skipped, script_of, by_script,
}
use evm_tools.Sink.Remote.{put_all, IsExact, IsIdempotent, run_exactly_once, IsHonest}
use evm_tools.Sink.Redis.{
  Commands, ClientConfig, Entry, Reply, answered, server_error, other_error, dedup_script,
  put_entry, redis_protocol, redis_answer, classify_message, permanent_redis_errors, to_entry,
  run_redis, ttl_seconds,
}

-- A key that has been set exists, at the time of the next command.
abbrev pub KeepsKeys : {S : Type 0} → Commands S → Type 0
KeepsKeys {S} redis =
    (key : Text) (ttl : Option ℕ) (s : S) → redis.exists key (redis.set key ttl s) ≡ true

module _ {S : Type 0} (redis : Commands S) (stream marker field line : Text) (max_len ttl : ℕ) where
  marked :
      KeepsKeys redis
      → (s : S) → redis.exists marker (script redis stream marker field line max_len ttl s).1 ≡ true
  unfolding dedup_script
  marked keeps s =
      if_cases {A = Bool × S} (λ r. redis.exists marker r.1 ≡ true) (redis.exists marker s) (λ e. e)
        (λ _. keeps marker _ _)

  script_again :
      KeepsKeys redis
      → (s : S)
      → (script redis stream marker field line max_len ttl
          (script redis stream marker field line max_len ttl s).1).1
        ≡ (script redis stream marker field line max_len ttl s).1
  script_again keeps s =
      skipped redis stream marker field line max_len ttl
        (script redis stream marker field line max_len ttl s).1 (marked keeps s)

pub put_entry-IsIdempotent :
    {S : Type 0} (redis : Commands S) (c : ClientConfig)
    → KeepsKeys redis
    → c.dedup ≡ true
    → IsIdempotent (put_entry redis c)
put_entry-IsIdempotent redis c keeps dedup e s =
    by_script redis c e (put_entry redis c e s) dedup
    ∙ ap (λ t. script_of redis c e t) (by_script redis c e s dedup)
    ∙ script_again redis c.stream (c.dedup_prefix ++ e.key) c.field e.line c.max_len
        (ttl_seconds c.dedup_ttl) keeps s
    ∙ sym (by_script redis c e s dedup)

never_confirmed : (ps : List Text) (msg : Text) → classify_message ps msg ≢ confirmed
unfolding classify_message
never_confirmed [] msg = λ e. cc e
never_confirmed (p ∷ ps) msg =
    if_either (λ r. r ≢ confirmed) (has_prefix msg p) (λ e. cc e) (never_confirmed ps msg)

redis_answer-IsHonest : IsHonest redis_protocol
unfolding redis_answer
redis_answer-IsHonest answered h = refl
redis_answer-IsHonest (server_error msg kept) h =
    absurd (never_confirmed permanent_redis_errors (to_upper msg) h)
redis_answer-IsHonest (other_error kept) h = cc h

module _ {S : Type 0} (redis : Commands S) (c : ClientConfig) (entries : S → List Text)
    (laws : IsRedis redis c.stream entries) (dedup : c.dedup ≡ true) (untrimmed : c.max_len ≡ 0)
    (apart : (key : Text) → text_eq (c.dedup_prefix ++ key) c.stream ≡ false) where
  -- The stream has, behind its entries at first, the line of each of these records whose marker was not
  -- there at first, once for each key.
  abbrev pub HasFirstLines : S → List Entry → S → Type 0
  HasFirstLines first es s = entries s ≡ entries first ++ first_lines (marks redis c first) es

  -- What Run leaves of the records `es`: those that it has counted are in the stream, and perhaps one more;
  -- at the end of the input all of them are.
  abbrev pub IsAppended : Type 0 → List Entry → S → ℕ → Ended × World S → Type 0
  IsAppended Whole es first before r =
      (n : ℕ) × (r.1.meters.delivered ≡ before + n)
      × (((r.0 ≡ all_delivered) × Whole × (length es ≡ n) × HasFirstLines first es r.1.dest)
          ⊎ ((r.0 ≢ all_delivered)
              × (HasFirstLines first (take n es) r.1.dest
                  ⊎ HasFirstLines first (take (suc n) es) r.1.dest)))

  put_all-HasFirstLines :
      (es : List Entry) (first dest : S)
      → dest ≡ put_all (put_entry redis c) es first
      → HasFirstLines first es dest
  put_all-HasFirstLines es first dest e =
      ap entries e
      ∙ entries-put_all redis c entries laws dedup untrimmed apart es first (marks redis c first)
          (λ key. refl)

  IsExact-IsAppended :
      (Whole : Type 0) (es : List Entry) (first : S) (before : ℕ) (r : Ended × World S)
      → IsExact
          (put_entry redis c)
          (put_entry-IsIdempotent redis c (λ key ttl s. laws.exists-set key ttl s) dedup)
          Whole
          es
          first
          before
          r
      → IsAppended Whole es first before r
  IsExact-IsAppended Whole es first before r (n, counted, inl (done, whole, sized, h)) =
      (n, counted, inl (done, whole, sized, put_all-HasFirstLines es first r.1.dest h))
  IsExact-IsAppended Whole es first before r (n, counted, inr (early, inl h)) =
      (n, counted, inr (early, inl (put_all-HasFirstLines (take n es) first r.1.dest h)))
  IsExact-IsAppended Whole es first before r (n, counted, inr (early, inr h)) =
      (n, counted, inr (early, inr (put_all-HasFirstLines (take (suc n) es) first r.1.dest h)))

  -- With deduplication, no limit of the stream's length, no marker with the stream's name, and markers
  -- that stay through the run, and whatever the replies are: the entries of the stream are those of before
  -- and then, in order, the lines of the records that Run has counted, or of those and the next one, each
  -- exactly once; of records with one key only the first has its line there, and none has whose marker was
  -- there before. At the end of the input no line was refused and that holds for all its records.
  pub run_redis_once :
      {D : Type 0} (options : SinkOptions) (inputs : List (Input D Reply)) (w : World S)
      → IsAppended
          (IsWhole to_entry inputs)
          (messages to_entry inputs)
          w.dest
          w.meters.delivered
          (run_redis redis c options inputs w)
  unfolding run_redis
  run_redis_once options inputs w =
      let keeps : KeepsKeys redis = λ key ttl s. laws.exists-set key ttl s in
      IsExact-IsAppended (IsWhole to_entry inputs) (messages to_entry inputs) w.dest
        w.meters.delivered (run_redis redis c options inputs w)
        (run_exactly_once (put_entry redis c) (put_entry-IsIdempotent redis c keeps dedup) to_entry
          redis_protocol redis_answer-IsHonest options.backoff_base options.backoff_max inputs w)
