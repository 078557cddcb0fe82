-- ===== src/Lib.antt =====
-- ShareCompute: the core that decides which devices of a ring may work, what each of them holds, and
-- when a ring is lost.
--
-- The program's parts, from the bottom up, and the files that model them. The sources of the first
-- nine are under Sources/ShareComputeCore.
--   Capability            CapabilityProfile.swift: what a device says of itself. Capability/Order is
--                         about the order of identifiers.
--   Node                  NodeState.swift: the states of a node; `next` is `NodeStateMachine.next`,
--                         `apply` its change in place, which returns the state and whether it moved.
--   Lease                 Epoch.swift, Lease.swift.
--   Membership            MembershipService.swift: the state and its leases. Membership/Reports has
--                         the operations that report on one node, Membership/Tick has `tick(at:)`;
--                         Membership/History makes the public operations the calls of a history.
--                         Membership/Lifecycle has the specification of one node's life that
--                         Membership/Lives compares the service with; Membership/Unordered and
--                         Membership/Orders compare two orders of the service's dictionary.
--   Planner               StagePlanner.swift: costs and eligibility. Planner/Apportion has `apportion`
--                         with its loops, Planner/Plan has `plan`. Planner/Determinism compares
--                         two orders of the members.
--   Watchdog              RingWatchdog.swift, with its histories in Watchdog/History.
--   Platform, Transport   PlatformKind.swift; RingTransport.swift and the stub transport of
--                         TcpRingProtocol.swift. Transport/Wire has the latter's join lines and
--                         `recv_line` of scripts/four_platform_pool_lib.py, which takes them off,
--                         Transport/Wire/Hub `handle_client` of scripts/four_platform_pool_hub.py.
--   Pool                  CrossPlatformPool.swift: one seat for each platform. Pool/Drive has
--                         `tick(at:)` and `planRAMPool`, Pool/Simulated the simulated peers.
--   Monitor               Apps/InferRing/InferRing/Services/RingHealthMonitor.swift, which puts the
--                         membership service and the watchdog together in an app.
--   Script                what the Python demos share: Script/Apportion and Script/Shards have
--                         `apportion` and `plan_shards` of scripts/four_platform_pool_lib.py,
--                         Script/Shards/Pipeline `plan_infer_shards` and Script/Activation the binary
--                         framing of scripts/inference_pipeline_lib.py.
--   Relay                 the class `Relay` of scripts/split_cluster.py: Relay takes connections,
--                         Relay/History has heartbeats and channels, and makes what happens to a
--                         relay the events of a history.
--   Prelude, Examples     shared helpers, Prelude/Reorder with lists and dictionaries in two orders;
--                         tests at concrete inputs.
-- The pool owns a membership service and a planner. It passes reports of peers on to the service,
-- reads the events that come back to keep its seats, and asks the planner for a plan for the members
-- that the service offers. The watchdog reads the same events to decide whether a generation goes on.
-- The monitor owns a service and a watchdog: a round of pings ends in a tick of the service, whose
-- events the watchdog reads; where the watchdog wants the ring rebuilt, the monitor starts that.
--
-- The model. A class or a struct is a record, and a method that mutates it returns the new one with
-- its events. Identifiers are strings; a dictionary is an association list, a set a list. Times are
-- natural numbers of milliseconds, so `a - b >= c` on times is `b + c <= a`, and the clock and
-- `UUID()` are arguments. Byte and layer counts are natural numbers: Swift traps where they would
-- overflow. `Double` in `apportion` is a parameter, a record of the operations that it uses, with the
-- hypothesis that a quotient of integers below 2 ^ 53 rounds down to the quotient of the integers;
-- Examples/Rational has an instance, and Examples/Floats one with the
-- `float` of the scripts. The stability score is a decimal, without the rounding of a
-- Double; the fraction of a battery is in thousandths. A failed precondition is the outcome `trap` of
-- the planner, or `none` in `apportion`.
--
-- Python's values, SHA-256, UTF-8 and the JSON coders of Foundation and of Python are parameters, each
-- with what is documented of it as a hypothesis. A socket is the bytes that come in before its deadline.
--
-- Fuel. One loop takes fuel, the one in `apportion`, in Swift and in Python, that feeds starved
-- nodes: it is given one more round than there are nodes. Every round leaves fewer nodes without a
-- layer, so this is enough.
--
-- Not modelled: the texts for users and logs, the rounding of times and scores, and what is around
-- the core: the apps under Apps but for the health monitor (InferRing is vendored from another
-- project), the timer and the notifications of the monitor, the listeners of
-- the relay and its copying of bytes, the other scripts with their sockets,
-- processes and downloads, the native runtime and the patches.
--
-- Beside the core stands Measured, which models the analysis of a recorded run,
-- docs/evidence/f49-endpoints-and-tensor/tools/analyze_decode_window.py. Measured/Logs transcribes
-- thirteen of the logs that it reads, the tables named proxyN.json.ts, with times in milliseconds;
-- they are data, the inputs of the tests in Examples/Measuring. The reading of files, the search for
-- the window's markers and the division by the number of tokens are not modelled. Measured/Proxy
-- models the counters of the program that writes the logs, tools/proxy.py in the same directory, without
-- the delay of chunks, the totals file and the sockets.
pub mod Prelude
pub mod Capability
pub mod Node
pub mod Lease
pub mod Membership
pub mod Planner
pub mod Watchdog
pub mod Platform
pub mod Transport
pub mod Pool
pub mod Script
pub mod Relay
pub mod Monitor
pub mod Measured
pub mod Examples
