-- ===== src/Lib.antt =====
-- A model of mmw-agent, the agent that runs xray-core on a server for the miaomiaowux master.
--
-- Texts are lists of bytes, Go's `int` and `int64` are ℤ and `uint64` is ℕ unless a file says
-- otherwise. Maps are association lists in the order of their range (Base/Dict).
--
-- Limiter models internal/limiter: Limiter/Types the structs, Limiter/Rate determineRate and
-- calcBurst, Limiter/Users the user table with lookupUserInfo, Limiter/Conn AcquireConn and
-- ReleaseConn (Limiter/Conn/Atomic their atomic counter accesses, interleaved), Limiter/Kick
-- TrackConn and kickConnGroup (Limiter/Kick/Race an interleaving of TrackConn).
-- Limiter/Buckets models the calls on speed buckets, which connections share by number: its children
-- show that no two users share one (Apart, Calls), what a new configuration does (Sync, Kicks) and
-- what a temporary limit does (Throttle, Limits). Limiter/Writes models the loops of conn.go that
-- spend the tokens, over the connection below as a parameter, and Limiter/Lookup
-- LookupBucketByEmail. The loops run on fuel, and end with as much of it as there are bytes.
-- Dispatcher models what internal/dispatcher/default.go does with the limiter: Dispatcher/Conns
-- the accounting of connections in getLink and DispatchLink.
-- Securechan models internal/securechan: Securechan/Window the replay window (its specification is
-- in Securechan/Window/History, the bits of a word in Securechan/Bits), Securechan/Words the
-- big-endian numbers, Securechan/Session the derivation, Encrypt and Decrypt over the AEAD and HKDF
-- of the Go libraries as parameters (Securechan/Session/Channel and Order relate two ends), and
-- Securechan/Cache session_cache.go.
-- Handler/Transaction models internal/handler/xray_config_transaction.go: the files, each call on
-- which can fail, and in Handler/Transaction/Actions the actions, with JSON, its checks and the hash
-- as parameters (Config, Outcomes and Rollback show what they do to the configuration, Undo
-- the way back of a failed activation, Retry what a repeated
-- prepare answers).
-- Handler/Config models what internal/handler/management_handler.go does to a configuration of xray
-- that is decoded into the JSON values of Json: Clients the clients of inbounds, Dedupe
-- dedupeTaggedArrayInPlace, Inbounds and Outbounds the storing, removing and ordering of both, Rules
-- the priorities of routing rules and the users in them, Rules/Edit the actions of manageRouting,
-- Defaults and Ensure EnsureXrayConfig, Unique validateUniqueInboundClients. Handler/Routing puts
-- these edits on the file and restarts xray, for manageRouting (Handler/Routing/Reports by answer,
-- Handler/Routing/Effects for add_rule) and, in Handler/Routing/Batch,
-- HandleBatchApply; Handler/Inbound does so for the edits of clients and sniffing exclusions in
-- Handler/Config/Manage. They use the files of Handler/Transaction, whose parameters
-- Handler/Transaction/Instance fills with Handler/Config. Handler/Auth models silent_auth.go,
-- Handler/Crypto crypto_middleware.go over Securechan, Handler/Nginx the managed include of
-- nginx_control.go, Handler/Routes and Handler/Probes the pure parts of return_route_handler.go and
-- domain_latency_handler.go.
-- Startup models the merge of cmd/mmw-agent/main.go, which sorts rules by the priorities of
-- Handler/Config/Rules, and its two repairs of a configuration (Startup/Patch). Xrayconf models
-- internal/xrayconf/merge.go, and Embedded/Monitor the speed monitor of internal/embedded/monitor.go
-- over the limiter. Agent/Reconnect models the waits and modes of internal/agent/client.go,
-- Collector MergeStats of internal/collector/metrics.go, Discovery internal/discovery/args.go.
-- Util/Guards models the tests of host names, URLs and control characters of
-- internal/util/pathguard.go.
--
-- A JSON number is its integer part and what fmt prints of it, and an empty array also stands for
-- Go's nil slice where the code appends to one. Counters of connections and times are far from the
-- limits of int64, which is not modelled.
--
-- A call of RestartXray of internal/xrayctl takes its outcome from the list of failures of
-- Handler/Transaction; after an error, two more entries of the list tell whether xray is stopped, runs
-- as before or was started all the same. Rates of the limiter are kept exact, where rate.Limit is a
-- float64.
--
-- Not modelled: HTTP, the decoding of requests and the authentication of the management handler; the
-- search for the configuration file; commands, services and network requests, which most of the
-- agent consists of; the calls of xray-core. What the running xray answers is a parameter.
pub mod Base
pub mod Limiter
pub mod Dispatcher
pub mod Securechan
pub mod Handler
pub mod Util
pub mod Json
pub mod Xrayconf
pub mod Startup
pub mod Embedded
pub mod Agent
pub mod Collector
pub mod Discovery
