-- ===== src/Lib.antt =====
-- A model of the core of PRX-WAF, a web application firewall and reverse proxy in Rust, with the
-- theorems that make it correct.
--
-- A request passes the gateway (crates/gateway), which classifies it into a protection tier and
-- asks the access lists, then the checks of the engine (crates/waf-engine), of which rate limits,
-- DDoS protection, custom rules, the velocity of transactions and the address of a client behind
-- proxies are modelled, and is answered by the response cache or a backend that the load balancer
-- picks. The nodes of a cluster (crates/waf-cluster) elect a main, watch each other by heartbeats, and the
-- workers follow the rules of the main.
--
-- The parts and their files. Names are those of the source, in snake case.
--   Base: shared names, lists, maps, `i64` as integers, machine words, text, and `f64` as the
--     parameter `Float` with the laws of IEEE 754 that are used.
--   Tier, Tier/Rule, Tier/Classifier, Tier/Snapshot: crates/waf-common/src/tier.rs and
--     crates/gateway/src/tiered: validation, compiled rules, classification, the live snapshot.
--   Access: crates/waf-engine/src/access and crates/gateway/src/pipeline/access_phase.rs.
--   RateLimit: crates/waf-engine/src/checks/rate_limit: token bucket, sliding window, the stores
--     behind one interface (`RateLimitStore`), the breaker and the check.
--   Ddos: crates/waf-engine/src/checks/ddos: counters (`CounterStore`), detectors, moving median,
--     ban table, ban action and the check over them.
--   Balancer: crates/gateway/src/lb.rs.
--   Cache: crates/gateway/src/cache and response_cache_integration.rs: keys (Key), rules (Rule), the
--     chain of gates (Policy), the index of tags (Tags), the store (Store), its statistics (Stats),
--     `ResponseCache` (Facade) over any `CacheBackend`, and the capture of bodies (Capture).
--   Inspect: crates/waf-engine/src/checker.rs and rules.rs: the lists of addresses and paths, and
--     (Phases) engine.rs: `inspect`, the order of the phases of the engine, over any phases.
--   Relay: crates/waf-engine/src/relay: the chain of forwarded addresses and the real address.
--   TxVelocity: crates/waf-engine/src/checks/tx_velocity: the ring of events of an actor, the
--     classifiers over it and the store of actors with its cooldown (Recorder).
--   Rules/Registry: crates/waf-engine/src/rules/registry.rs.
--   Rules/Custom: crates/waf-engine/src/rules/engine.rs: the conditions of custom rules, their
--     compiled form (Compiled), the engine with its buckets of rules by host and its reloads
--     (Engine).
--   Cluster: crates/waf-cluster/src: messages (Protocol), `ElectionManager` (Election), the
--     phi-accrual detector (Detector), one node and its tasks (Node), all nodes over a network as
--     a step relation (Safety), rule synchronisation (Sync).
--   Tests: runs at concrete inputs.
--
-- State is passed explicitly: an operation takes the state and returns it, with its answer. A call
-- that holds a lock is one step; where the code gives a lock back between a read and a write, the
-- part after the read is a definition of its own (`process_vote_after`), and Cluster/Safety has a
-- step for each part. What the engine records of a decision is a list of the rows that it hands to
-- new tasks, whose writes may fail, and of what it puts into queues (Inspect/Phases). An address is
-- its text, or its octets where they are hashed. Loops are structural recursion, so no fuel is
-- needed. A failed store call is none. Sums that the code leaves to wrap are reduced modulo 2 ^ 32
-- or 2 ^ 64; plain sums of epoch milliseconds are integers, since they are far from the ends of an
-- `i64`.
--
-- Parameters: `f64`, regular expressions, the header types of the http crate, JSON and lz4, the
-- CIDR table, the networks of the ipnet crate and the parsing of addresses, `str::to_lowercase`,
-- the cache of the moka crate with its laws of lookup, globs and Rhai scripts, and the Redis
-- stores. Not modelled: the
-- proxy over pingora, transport and certificates, the database, the API and command line, the
-- signature checks, device fingerprints, the Valkey backend of the response cache, the feeds of
-- networks, and the logs and metrics of all parts.
pub mod Base
pub mod Tier
pub mod Rules
pub mod Ddos
pub mod RateLimit
pub mod Access
pub mod Balancer
pub mod Cache
pub mod Cluster
pub mod Inspect
pub mod Relay
pub mod TxVelocity
pub mod Tests
