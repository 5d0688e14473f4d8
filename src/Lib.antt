-- ===== src/Lib.antt =====
-- Verification library of the CSD pool miner: the path of a share from the pool's notify to its
-- submit, the backends that sweep its nonces, and the watchdogs that keep the miner connected,
-- hashing and cool; and the checks of its command line, of its updates and of its statistics server.
--
-- The program. A Stratum client (src/stratum/client.rs) keeps a session with a pool: its reader
-- thread parses pushed frames (src/stratum/protocol.rs), counts acks, and reconnects over an ordered
-- list of endpoints (src/endpoint.rs). The mining loop (src/stratum/loop_stratum.rs) maps the latest
-- notify to a work template (src/stratum/mapping.rs), builds the coinbase, the merkle root and the
-- 84-byte header (src/coinbase.rs, src/consensus_types.rs), sweeps nonces with the midstate of
-- SHA-256 (src/sha256d_cpu.rs), re-hashes every find, and submits it. A reliability watchdog
-- (src/stratum/watchdog.rs) reads the session's counters and forces a reconnect or a failover; a GPU
-- watchdog (src/gpu_watchdog.rs) recovers or exits on a hung GPU; a thermal gate (src/thermal.rs)
-- pauses the launches of a hot one. A launch is swept by a backend: the threads of
-- src/backends/cpu.rs, or the two pipes of src/backends/cuda.rs and src/backends/opencl.rs, whose
-- geometry src/backends/autotune.rs chooses.
--
-- The files.
--   Prelude      shared names and lemmas: tests, lists, bytes, bits, words, results, Int, Float
--   Sha          src/sha256d_cpu.rs: sha256_compress, the midstates, both finishers, the prefix
--                precomputation; Sha/Padding is FIPS 180-4 for any compression function
--   Work         src/coinbase.rs and src/consensus_types.rs: build_coinbase_bytes, coinbase_txid,
--                merkle_root_from_branch, header_84, work_template_encode
--   Target       src/stratum/loop_stratum.rs: targets, hash_leq_target, u256_div_u64_be, difficulties
--   Protocol     src/stratum/protocol.rs: NotifyParams::parse, SubscribeResult::parse, the requests
--   Mapping      src/stratum/mapping.rs: notify_to_template, compose_extranonce, build_submit
--   Launch       src/stratum/loop_stratum.rs: the launch header, a CPU worker, the correctness gate;
--                Launch/Bridge writes out the pool's side as the tests of src/stratum/mapping.rs do
--   Partition    src/mining_config.rs: partition_nonce_range
--   Endpoint     src/endpoint.rs: EndpointList with its rotation and failback
--   Watchdog     src/stratum/watchdog.rs: watchdog_decision, and watchdog_tick over a WatchdogView
--   GpuWatchdog  src/gpu_watchdog.rs: gpu_watchdog_decision, gpu_watchdog_tick and the polls
--   Thermal      src/thermal.rs: thermal_decision, Deadman::tick, ThermalGate, the pollers' ticks
--   Client       src/stratum/client.rs: acks and counters in Client, in Client/Reader
--                dispatch_frame, send_submit, reconnect, the reader's step and ClientWatchdog, and in
--                Client/Handshake the handshake's loop and connect_failover
--   CpuBackend   src/backends/cpu.rs: a step of a thread, and the sweep under a schedule of steps
--   GpuBackend   src/backends/cuda.rs: the loop over two pipes; src/backends/opencl.rs in
--                GpuBackend/Opencl
--   Autotune     src/backends/autotune.rs: pick_best and its order; in Autotune/Cache the text of
--                CachedGeometry
--   Mining       src/stratum/loop_stratum.rs: in Mining/Source the work intake and submit_solution, in
--                Mining/View the hashrate sample and LoopGpuView, in Mining/Sweeps the loop's variables
--                and a sweep's outcome, in Mining/Turn a turn of the loop
--   Cli          src/main.rs, src/mining_config.rs, src/winsvc.rs, src/hiveos.rs, src/config_file.rs:
--                the decisions about the command line; Cli/Config merges it with the file
--   SelfUpdate   src/selfupdate.rs: parse_version, should_update, verify_sha256
--   Notify       src/notify.rs: validate_webhook_url
--   Stats        src/stats.rs and src/stats_server.rs: routes, tokens, answers, hashrate windows
--   Tests        the results applied to concrete inputs
--
-- How the code is modelled. Numbers are native naturals with the wrap-around of their width written
-- out; a Duration is its nanoseconds, a clock's reading is an argument. Byte arrays and strings are
-- lists, with a length as a hypothesis where it matters. Shared state is a record that each handler
-- takes and returns, so a handler is one step, and what another thread does between two reads of it
-- is not modelled there; in CpuBackend, where threads race for the nonces, every access to a shared
-- variable is a step, and a schedule says which thread makes it. Loops are structural recursion: a
-- worker over the nonces that it has left, the reconnect loop over the turns that it is given, the
-- handshake over the lines that it reads, a watchdog over its polls. The loop of a GPU backend has
-- fuel, of which four turns for each nonce and one more are enough, since a turn launches, drains or
-- exchanges the pipes; the printer of a number has the number itself and one as fuel, and divides it
-- by 10 in each turn. What an atomic flag reads is a function of the step, or stands in the
-- schedule. f64 values are exact multiples of 2 ^ -1074, compared as IEEE 754 does; operations that
-- round are parameters. Text is ASCII where white space or letter case counts: in Client, Cli,
-- Autotune/Cache, SelfUpdate, Notify and Stats.
--
-- Third-party code is a parameter with its documented behaviour as laws: the crate sha2 (the digest
-- is FIPS 180-4 over its compression function), the crate hex (decode after encode, and that decode
-- gives bytes), serde_json (no law), and the drivers and kernels of a GPU (a launch that reports no
-- find has hashed its window). Of the rates of the mining loop, 0.0 over a positive number is 0.0.
--
-- Not modelled: sockets, threads' starts and sleeps, logging, the read of a request's head and of the
-- files, the JSON of the statistics and of the HiveOS report, the rebuild of a GPU backend, the
-- benchmark, the key generation, and the start of the miner.
pub mod Prelude
pub mod Endpoint
pub mod Watchdog
pub mod Sha
pub mod Work
pub mod Target
pub mod Protocol
pub mod Mapping
pub mod Launch
pub mod Partition
pub mod GpuWatchdog
pub mod Thermal
pub mod CpuBackend
pub mod Mining
pub mod GpuBackend
pub mod Autotune
pub mod Cli
pub mod SelfUpdate
pub mod Notify
pub mod Stats
pub mod Client
mod Tests
