-- ===== src/Lib.antt =====
-- evm-tools, a family of programs that watch an EVM chain and move what they see as JSON records: the
-- producer evm-stream (internal/stream) reads blocks, logs and traces over JSON-RPC (internal/rpc), the
-- producer evm-balance (internal/balance) reads balances; both write records (internal/record), which
-- sinks read and deliver to files (internal/filesink), Kafka (internal/kafkasink), a webhook
-- (internal/webhooksink), SQS and SNS (internal/awssink), PostgreSQL (internal/pgsink), Redis
-- (internal/redissink) and standard output (internal/stdoutsink).
--
-- The modules, and the code that each is about:
--   Base       what the others share: Boolean tests, lists, texts as lists of bytes, integers, machine
--              words; Base.Exec has the methods that change state, may fail and may panic
--   Backoff    internal/backoff/backoff.go and backoffFor of internal/stream/stream.go
--   Record     internal/record/record.go (Envelope), key.go (Key): DedupKey, PartitionIdentity,
--              reader.go (Reader): Next, and writer.go (Writer): Emit
--   Rpc        internal/rpc/eth.go (Hex, Types), trace.go (Types), and the classification of errors in
--              rpc.go and trace.go, with isLogRangeCapError of internal/stream/stream.go (Errors)
--   Stream     internal/stream: State (Stream, Options), Reorg (reorg.go), Decode (decode.go), Logs
--              (emitLog, processLogs), Trace (internal.go), Native (native.go, processNative), Poll
--              (pollOnce, processRange), Run (Run, resolveStart, the reload)
--   Sink       Loop: Run and its retries, which the sinks repeat, with their metrics (Gauges) and New
--              (Options); Remote: destinations behind a network call; Kafka (kafkasink.go, writer.go,
--              and Route: the router), Aws (awssink.go, sqs.go, sns.go), Postgres (pgsink.go,
--              postgres.go), Redis (redissink.go, redis.go), Webhook (webhooksink.go, Condition:
--              filter.go, Post and Redact: poster.go), Filter (internal/filesink/filter.go), File
--              (internal/filesink: Disk, Names and Writer for writer.go, Run for filesink.go), Stdout
--              (internal/stdoutsink/stdoutsink.go)
--   Balance    internal/balance/balance.go: change detection and the emission of a tick (Apply), selectError
--              (Errors), sampleAll, handleError and the loops of the two cadences (Cadence); abi.go (Abi)
--   Examples   concrete inputs on which the theorems are applied
-- Child modules named for what they prove (Bounds, Laws, Range, Survivors and the like) hold the proofs.
--
-- How the parts interact: Run (run_round) takes a staged reload, calls pollOnce (poll_once), which reads
-- the head, asks handleReorgIfAny (handle_reorg_if_any) whether to rewind, and goes through the chunks up
-- to the head (poll_chunks) by processRange (process_range): processLogs (process_logs) splits a refused
-- range and gives each log to emitLog (emit_log), which decodes it (decode_log); processNative
-- (process_native) detects transfers and traces. Each record is one call of the emitter (emit_record). A
-- method is a function from the state of the stream to its outcome and the state: what was written before
-- an error or a panic stays written.
--
-- Each sink is the same loop: run reads a record, prepares what is to be delivered, and retries the call
-- of its Destination (deliver_with_retry) until it is confirmed or fails for good. run_kafka,
-- run_webhook, run_aws, run_postgres, run_redis and run_file are its instances. The file sink's call is
-- Write (write), which rotates first (rotate); the others send to a remote destination, whose reply says
-- what the call returns and whether what was sent was taken all the same. Contract is the
-- interface between the loop and a destination; remote_contract and file_contract fill it.
--
-- What the node answers, a destination, the context and the files are arguments: a function from what is
-- asked to an Answer, Booleans for whether the context has ended at a place, an Emitter that accepts a
-- record or returns an error. Nothing is assumed about them but where a theorem says so. So are what the
-- standard library does with the rendering of a time, the limit of make and the random source. The lines of
-- a record reader are a list, with the error of the scanner behind them, if it has one. A receipt that
-- detectNativeTransfers asks for is a Fetch: an answer, or nothing, where the context was at its end.
--
-- Texts are bytes; upper and lower case and white space are those of ASCII. Quantities of the node are
-- texts and are parsed as the code does it. A uint64 or an int64 is kept below 2^64, with the wrap-around
-- of a sum or a product written out. An int that indexes a slice is 64 bits wide.
--
-- The directory of the file sink is a list of named files with their bytes and times; what the operating
-- system answers in a call of Write is a record (Os) with an error or none for each call of it. The
-- commands of Redis, the table of PostgreSQL, SHA-256, JSON values and the floats of math/big are
-- parameters. A time.Duration is an int64.
--
-- Fuel: process_logs is run on the number of blocks of its range, poll_chunks on the blocks to the head
-- and two more, trace_block_internal on five passes, the search for a segment's name (search_name) on two
-- tries for each entry of the directory and two more; running out of it is a panic, which the theorems on
-- them exclude. The loops over attempts, rounds and records recurse on the list of what they meet.
--
-- Not modelled: the command line, the configuration, JSON and ABI parsing, HTTP, logging, the metrics and
-- health of the producers, whose calls have no effect on what is emitted, and the observed durations of
-- the sinks; the dead letters, the reading of the targets of evm-balance and the reload of them, the owners
-- of tokens, the set-up of the client libraries and the text of the SQL statements.
pub mod Base
pub mod Backoff
pub mod Record
pub mod Rpc
pub mod Stream
pub mod Sink
pub mod Balance
pub mod Examples
