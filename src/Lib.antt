-- ===== src/Lib.antt =====
-- The gateway proxy_opencode in front of free-tier language models: its keys, its pool of egress
-- buckets and its failover to a paid backup.
--
-- A request that comes in asks the failover wrapper (Failover.antt). It asks the primary adapter,
-- which leases a bucket of the egress pool (Egress/Pool.antt) for each attempt, sends the request
-- through the agent of that bucket, and releases the lease with a verdict. The verdict may cordon
-- the bucket (no request gets it until a deadline) or demote it (a request gets it last). In the
-- background the pool probes the agents. The rotator (Egress/Rotator.antt) hears of every released
-- lease, and when its counters say so it asks an agent for a new address, during which the bucket
-- is marked. Before all that, the gateway checks the key of the request (Auth.antt) and the name
-- of the model that it asks for (Registry.antt). The edge (Edge/Policy.antt) stands in front of it
-- all and sends a request to a backup of its own if the gateway is down. A client may speak another
-- protocol than chat completions; its requests and answers are translated (Formats.antt).
--
-- - Egress/Models.antt and Egress/Models/Window.antt: proxy_opencode/egress/models.py. `EgressSpec`,
--   `EgressState`, `Lease`, `snapshot` and the quota window. The HTTP client of a bucket is left out.
--   The three texts of `cordon_reason` are constructors. The reset of the window, at 8:00 in a zone 8
--   hours ahead of UTC, is computed on the milliseconds since the epoch.
-- - Egress/Ledger.antt: the events that the pool emits and what its observer is told, with the fields
--   that depend on the bucket and the verdict; derived details such as a formatted time are left out.
-- - Egress/Pool.antt: `EgressPool.__init__` of proxy_opencode/egress/pool.py, with its clamps.
-- - Egress/Pool/Verdict.antt: `release` at one bucket, `_enter_cordon`, `_enter_cooldown` and
--   `_lift_cordon_on_success`.
-- - Egress/Pool/Health.antt: `_probe_one`, `_probe_soft_failure`, `_mark_probe_failed`,
--   `_lift_ip_scoped_cordon`, `apply_rotation_success`, at one bucket.
-- - Egress/Pool/Affinity.antt: the bindings of sessions to buckets, `_affinity` and `_live_bindings`.
-- - Egress/Pool/Select.antt: `acquire`. `begin` is the code up to the first `await`, `wake` one round
--   of the gate's loop, `finish` the code that takes the slot.
-- - Egress/Pool/World.antt: the pool with its leases and its sleeping requests. An `Action` is the
--   code of one task between two awaits, so that a list of actions is one interleaving of the tasks.
-- - Egress/Counts.antt, Egress/CountRows.antt and Egress/Counters.antt: `BucketCounts` and
--   `EgressCounters` of proxy_opencode/egress/counters.py, with the file of the snapshot, whose rows are
--   objects with a field for each part of the counts. The formatted time of a rotation is its moment.
--   Python's conversions of texts are an argument.
-- - Egress/Rotation.antt: `_rotate_flow` of proxy_opencode/egress/rotate.py, with `_agent_rotate`,
--   `_wait_for_ip_change` and `_probe_ip`. An answer of the agent that makes `_agent_rotate` raise has a
--   case of its own.
-- - Egress/Rotator.antt and Egress/Rotator/Run.antt: `EgressRotator` of the same file. A `Happening` is
--   a piece of code between two awaits: an action of the pool's tasks, a release with what the
--   observer does, a request of the admin API, the beginning and the end of `_rotate`, the timer of a
--   retry.
-- - Zen.antt: `chat` of proxy_opencode/upstreams/zen/client.py from its first `_acquire` on, the
--   settlement of a lease (`_exchange_via_httpx`, `_consume_ok`, `_release_for_status`) and
--   `_header_deadline_s`. The walk takes the pool and the exchange as functions on a state.
-- - Zen/Leasing.antt: `_acquire` on the pool, with what the other tasks do while it sleeps.
-- - Zen/Policy.antt: `apply_request_policy` of proxy_opencode/upstreams/zen/policy.py.
-- - Zen/Tools.antt: `merge_tools` and `rename_collisions` of proxy_opencode/upstreams/zen/tools.py.
-- - Zen/Aggregate.antt: `aggregate_sse` of proxy_opencode/upstreams/zen/aggregate.py, on parsed lines.
-- - ModelProfile.antt: the estimators and budgets of proxy_opencode/model_profile.py. A product with a
--   decimal factor is a fraction of 100, which the floats of the source round to the same number.
-- - Edge/Policy.antt: the headers, the verdicts and the rewriting of the model of
--   proxy_opencode/edge/policy.py.
-- - Formats/Messages.antt, Formats/Anthropic/Request.antt, Formats/Anthropic/Body.antt and
--   Formats/Anthropic/Stream.antt: the request, the whole answer and the stream of
--   proxy_opencode/formats/anthropic_proto.py, on parsed documents. Formats/Anthropic/Stream/Reading.antt
--   is a client that reads the events.
-- - Formats/Responses/Request.antt, Formats/Responses/Data.antt, Formats/Responses/Body.antt and
--   Formats/Responses/Stream.antt: the request, the whole answer and the stream of
--   proxy_opencode/formats/responses_proto.py, with such a client in
--   Formats/Responses/Stream/Reading.antt. The random ids are arguments.
-- - Formats/SseIter.antt: `parse_sse_chunks` of proxy_opencode/formats/sse_iter.py.
-- - Failover.antt: `FailoverAdapter` of proxy_opencode/upstreams/failover.py: `chat`, `_trip`,
--   `_via_secondary`, `_map_model`, the breaker and the daily budget.
-- - Auth/Keystore.antt: `KeyRecord` and `KeyStore` of proxy_opencode/auth/keystore.py, with the file
--   that it is saved to and read from.
-- - Auth/Core.antt: `classify_key`, `require_gateway_key` and `require_admin_key` of
--   proxy_opencode/auth/core.py.
-- - Registry.antt: `ModelRegistry` of proxy_opencode/registry.py, `resolve` and `public_id`.
-- - Prelude.antt and its modules: Boolean tests, lists and maps over the native natural numbers.
--
-- Bounds: a time is a natural number of milliseconds, for a float of seconds; a Retry-After that is
-- negative or no number is not modelled. A difference of times stops at 0, as the source's `max(0.0,
-- ...)` does where it takes one; where it compares `now - seen` with a limit, a negative difference
-- and 0 are both below it. The requests in flight and the counters are unbounded, as in Python. The
-- loop over the lines of a stream's buffer runs on the length of the buffer, of which each line takes
-- a byte; the walk over the buckets runs on its attempts. Every other loop is over a list, and the
-- loop of the gate is one action per round.
--
-- Not modelled: the clocks, whose readings are arguments; the HTTP answer to a probe, of which the
-- parsed fields are arguments; `matches_prefix`, a parameter that only decides about an audit
-- event; the adapters of the failover, whose outcomes are arguments, so that a missed deadline is
-- an exception of the primary; logging; headers and notes; the parsing of the Authorization header,
-- and the random texts of a new key; a failed write of a file; a task of the rotator that
-- is cancelled or crashes, and its event `prefix_mismatch`; the body of a chat completion before its
-- policy, the transport of an exchange and the tokens stamped on a lease; the other components of the
-- gateway (routes, the agents, the reports).
pub mod Auth
pub mod Edge
pub mod Egress
pub mod Failover
pub mod Formats
pub mod ModelProfile
pub mod Prelude
pub mod Registry
pub mod Zen
