-- ===== src/Lib.antt =====
-- The logic of the ig-desktop frontend that turns the events of running gadgets into what the user
-- sees: the stores of events, the DNS map and the network map; and the parts around it: the requests and
-- messages of the backend, the registry of plugins, the preferences and the search in tables. Paths
-- are from the repository's root; all the modelled code is TypeScript under frontend/src/lib.
--
-- The parts and how they interact. The backend sends gadget messages. Those of single events wait
-- in an event buffer, whose timer flushes them through the data processors of the plugins into one
-- ring buffer per gadget instance (handlers/gadget.handler.svelte.ts, services/processor-state.service.ts,
-- utils/ring-buffer.ts); arrays of events are stored as snapshots too. The views read the ring
-- buffers: the DNS map pairs requests with responses (utils/dns), and the network map adds events to
-- a graph of addresses (utils/networkMapConfig.ts, utils/networkmap).
--
-- Files and code:
--   Prelude and its children: shared names, Boolean tests, lists, sums, integers, JavaScript's maps
--     as lists of entries in order of insertion, and the stable sort.
--   Js, Js.Text, Js.Numerals, Js.Json: the values of an event and of JSON, and the string and number
--     functions that the source calls.
--   Ring: EventRingBuffer (create, push, push_many, get, slice, to_array, iterate, clear, ends).
--     Ring.Valid is its invariant; Ring.Refine and Ring.Slices compare it with a list.
--   Dns.Types: utils/dns/dnsTypes.ts. Dns.Address and Dns.Parse: from an event to a ParsedDnsEvent,
--     with its key (utils/dns/dnsCorrelator.ts, parseDnsEvent and its helpers). Dns.Entries: the
--     pending requests and the transactions built from them. Dns.Correlate: dedupeAndSort and
--     computeDnsCorrelation. Dns.Severity: utils/dns/dnsSeverity.ts. Dns.Config: utils/dns/dnsConfig.ts,
--     without the response timeout.
--   NetworkMap.Types: types/networkmap.ts. NetworkMap.Config: extractNetworkMapConfig.
--     NetworkMap.Ids: the ids and labels, and utils/networkmap/portDirection.ts. NetworkMap.Graph:
--     processEvents.
--     NetworkMap.Activity: updateActivityStates and graphStateToArrays.
--   Gadget.Buffer: the timer of EventBuffer as a step relation. Gadget.Flush: what one flush does.
--     Gadget.Processors: runEventProcessors, runBatchProcessors and the queue of synthetic events.
--     Gadget.Snapshots and Gadget.Arrays: handleGadgetArrayData.
--   DnsMap: utils/dns/dnsMapGraph.ts, buildDnsMapModel and what it uses. DnsMap.Identity has the keys
--     and identities, DnsMap.Group the accumulators, DnsMap.Model the finished model and its filters.
--   Preferences: utils/env-preferences.ts. Js.Json has the values, Preferences.Equality deepEqual,
--     Preferences.Storage the keys in local storage, Preferences.Recents and Preferences.History the
--     lists that are kept there.
--   Api: services/api.service.svelte.ts, ApiService; a promise is the number of its request.
--     Api.Settled and Api.Reached follow the promises through any sequence of requests and responses.
--   Routes: utils/route-matcher.ts. A pattern is turned into the text of a regular expression in the
--     steps of the source, which is then read as a list of pieces and run with backtracking, as RegExp
--     does. Routes.Parts says what patterns are meant to be, Routes.Compile what they compile to,
--     Routes.Fills which paths they match and Routes.Params with what parameters; Routes.Matching is
--     about the expressions.
--   Plugins: types/plugin-manifest.ts and types/plugin-system.ts. Plugins.Validation: the check
--     of a manifest; Plugins.Registry: the maps of
--     services/plugin-registry.service.svelte.ts and what changes them; Plugins.External: registerExternal
--     and loadFromCache; Plugins.Queries and Plugins.Lookups: what the views ask for.
--     Plugins.Owned and Plugins.Invariant keep the maps together, Plugins.Outcomes and Plugins.Lists say
--     what the calls leave and give.
--   Messages.Router: services/message-router.service.svelte.ts, over any handlers, with
--     handlers/environment.handler.ts and stores/current-session.svelte.ts. Messages.Deployments:
--     shared/deployments.svelte.ts and handlers/deployment.handler.ts; Messages.Updates says what its
--     messages change.
--   Search: utils/search-match.ts and workers/filter.worker.ts; Search.Incremental compares the filter
--     in steps with the full one.
--   Stores.Toast and Stores.Confirmation: stores/toast.svelte.ts, stores/confirmation-modal.svelte.ts,
--     as the actions that can happen to them; a promise is the number of the call that made it.
--   Each component's Tests evaluate it on concrete inputs and apply the theorems to them.
--
-- How code is modelled. A function of the source is a function of the same name in snake case; a
-- loop is a function by recursion on the list it runs over, so no fuel is needed (the digits of a
-- printed number are the exception, with fuel above their number). Objects that the source changes in
-- place are written back to the list or map that holds them. undefined is none; an absent value of an
-- event is the value undefined. Numbers are whole integers without a bound: the source's are flags,
-- ports, counters and times, far below 2^53. DNS times are held in nanoseconds, where the source has
-- milliseconds with a fraction; other times are whole milliseconds. Case folding is that of ASCII.
-- Number() of a text reads decimal numerals; other numerals count as not a number.
--
-- JSON, decodeURIComponent, the compiler and cache of plugins and the texts of the errors of RegExp are
-- parameters; what RegExp makes of the expressions that are built here is written out as part of the
-- language. The code of plugins
-- is one too: what a call of processEvent or processBatch returns, throws and emits is given by
-- functions over a state of the plugins' own. A plugin sees of its datasource
-- the name only. A flush is one step at its start and one at its end, so that messages can arrive in
-- between; what it does to the ring buffers is one function.
--
-- Not modelled: the handlers of gadget info, logs and quit, the layout of the maps, the charts, the
-- compiler and the cache of plugins, the replay of sessions and the other stores and services of the
-- frontend (planned); the Svelte components and routes (display only), the transports and the Go
-- backend (I/O), and the generated bindings.
pub mod Api
pub mod Dns
pub mod DnsMap
pub mod Gadget
pub mod Js
pub mod Messages
pub mod NetworkMap
pub mod Plugins
pub mod Preferences
pub mod Prelude
pub mod Ring
pub mod Routes
pub mod Search
pub mod Stores
