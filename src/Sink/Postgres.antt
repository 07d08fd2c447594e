-- ===== src/Sink/Postgres.antt =====
-- internal/pgsink: the PostgreSQL sink. The table is a parameter, changed by executing the INSERT
-- statement with a row.
pub mod Tables
use evm_tools.Base.{
  ℕ, ◌≡◌, ◌≢◌, refl, if_either, Bool, true, false, ◌||◌, Option, none, some, List, [], ◌∷◌, ◌++◌,
  Text, codes, text_eq, ℤ, leb, length, take, if◌then◌else◌, ◌*◌, ◌+◌,
}
use evm_tools.Base.Exec.{Outcome}
use evm_tools.Record.Envelope.{Envelope, type_name}
use evm_tools.Record.Key.{dedup_key}
use evm_tools.Sink.Loop.{
  Answered, confirmed, transient, permanent, Prepared, deliver, refuse, Input, Ended, World,
  Delivery, Destination, deliver_with_retry, run,
}
use evm_tools.Sink.Loop.Gauges.{Attempt}
use evm_tools.Sink.Loop.Options.{SinkOptions, checked}
use evm_tools.Sink.Remote.{Protocol, IsHonest, remote}

-- The arguments of the INSERT statement; `none` is SQL's NULL.
pub record Row : Type 0 where
  pub key : Text
  pub schema_version : ℤ
  pub type : Text
  pub tool : Text
  pub name : Option Text
  pub chain : Option Text
  pub chain_id : ℤ
  pub block_number : ℕ
  pub block_hash : Option Text
  pub tx_hash : Option Text
  pub log_index : Option ℕ
  pub timestamp : Option Text
  pub emitted_at : Text
  pub content : Text

-- nullText
unfoldable pub null_text : Text → Option Text
null_text s = if text_eq s [] then none else some s

-- Insert. The numbers are converted to int64, as their residue modulo 2 ^ 64.
unfoldable pub row_of : {D : Type 0} → Envelope D → Text → Row
unfolding null_text
row_of env raw = record {
  key = dedup_key env;
  schema_version = env.schema;
  type = type_name env.type;
  tool = env.tool;
  name = null_text env.name;
  chain = null_text env.chain;
  chain_id = env.chain_id;
  block_number = env.block_number;
  block_hash = null_text env.block_hash;
  tx_hash = null_text env.tx_hash;
  log_index = env.log_index;
  timestamp = null_text env.timestamp;
  emitted_at = env.emitted_at;
  content = raw;
}

-- The error of an insertion: one of PostgreSQL with its SQLSTATE, or another one.
pub data Reply : Type 0 where
  committed : Reply
  pg_error : Text → Bool → Reply
  other_error : Bool → Reply

abbrev pub is_transient_class : Text → Bool
is_transient_class c =
    text_eq c (codes "08")
    || text_eq c (codes "53")
    || text_eq c (codes "40")
    || text_eq c (codes "57")
    || text_eq c (codes "55")

-- Classify, of a *pgconn.PgError
unfoldable pub classify_state : Text → Answered
classify_state code =
    if leb 2 (length code)
    then if is_transient_class (take 2 code) then transient else permanent
    else transient

abbrev pub pg_answer : Reply → Answered
pg_answer committed = confirmed
pg_answer (pg_error code kept) = classify_state code
pg_answer (other_error kept) = transient

abbrev pub is_committed : Reply → Bool
is_committed committed = true
is_committed (pg_error code kept) = kept
is_committed (other_error kept) = kept

abbrev pub postgres : Protocol Reply
postgres = record { answer = pg_answer; taken = is_committed }

never_confirmed : (code : Text) → classify_state code ≢ confirmed
unfolding classify_state
never_confirmed code =
    if_either (λ a. a ≢ confirmed) (leb 2 (length code))
      (if_either (λ a. a ≢ confirmed) (is_transient_class (take 2 code)) (λ e. cc e) (λ e. cc e))
      (λ e. cc e)

pub postgres-IsHonest : IsHonest postgres
postgres-IsHonest committed h = refl
postgres-IsHonest (pg_error code kept) h = absurd (never_confirmed code h)
postgres-IsHonest (other_error kept) h = cc h

-- New
unfoldable pub new_sink : SinkOptions → Outcome Text SinkOptions
unfolding checked
new_sink o = checked (codes "pgsink: reader is required") (codes "pgsink: inserter is required") o

abbrev pub to_row : {D : Type 0} → Envelope D → Text → Prepared Row
to_row env line = deliver (row_of env line)

module _ {Table : Type 0} (insert : Row → Table → Table) (options : SinkOptions) where
  abbrev pub database : Destination Table Reply Row
  database = remote insert postgres options.backoff_base options.backoff_max

  -- insertWithRetry
  unfoldable pub insert_with_retry :
      List (Attempt Reply) → Row → World Table → Delivery × World Table
  insert_with_retry attempts row w = deliver_with_retry database attempts row w

  -- Run
  unfoldable pub run_postgres :
      {D : Type 0} → List (Input D Reply) → World Table → Ended × World Table
  run_postgres inputs w = run database to_row inputs w
