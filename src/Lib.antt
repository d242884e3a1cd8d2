-- ===== src/Lib.antt =====
-- A verification library of morpheus-proxy, a testing proxy that forwards HTTP and gRPC traffic and
-- applies rules to it: it matches, mocks, rewrites, faults, delays and logs what passes. Paths are
-- from the repository's root.
--
-- Prelude.antt has what all parts share: a JavaScript string is the list of its UTF-16 units, and
-- `toLowerCase` maps ASCII letters; a Map or a plain object is the list of its entries in the order
-- of their insertion; `sort` is a stable sort. Json.antt is the data of JSON.
--
-- Rules.antt models src/rules. Types.antt is types.ts; Matcher.antt is matcher.ts: resolve_field,
-- eval_matcher, collect_matcher_fields, matcher_uses_body, matcher_has_script; Consume.antt is
-- consume.ts, the map of counters as the state and one function for each method; Store.antt is
-- store.ts, a record with the map of rules, the revision and the cached snapshot, one function for
-- each method; Evaluate.antt is evaluate.ts, whose evaluate_request runs the matchers over a snapshot
-- of the store and consumes rules from the registry. The store reports changed ids;
-- Store/Notices.antt makes the report a reset of counters, as src/index.ts does. The RegExp engine,
-- the script sandbox, the clock readings, and what other requests do to the counters while a matcher
-- is awaited, are parameters.
--
-- Proxy/Headers.antt is src/proxy/headers.ts: fromRawHeaders, fromHttp2Headers, stripHopByHop,
-- headerValue, deleteHeader and setHeader on the header maps of the matchers. fromRawHeaders finds the
-- inherited constructor of an object under that name. Header names that are array indices, and
-- __proto__, are left out.
--
-- Proxy/Body.antt is src/proxy/body.ts: requestBodyInterest and responseBodyInterest over the rules,
-- and the readers of a stream, readBodyUpTo and readBodyWithLimit, as functions of the sequence of
-- events that their listeners get, the timer of HTTP/2 included. Proxy/Actions.antt is
-- src/proxy/actions.ts: applyRewriteOperations, applyResponseReplace and computeDelay.
--
-- Grpc/Frames.antt is src/grpc/frames.ts on lists of bytes. The decoder's loop runs on fuel, as many
-- rounds as there are bytes, which is enough as a round takes five bytes at least.
--
-- Logging.antt models src/logging: Mask.antt is mask.ts, on values where the code writes in place;
-- Messages.antt, LogId.antt and TrafficLog.antt are traffic-log.ts, a record of the entries, their
-- index by id, the sequence number, the byte count and the queue of file operations, one function
-- for each method; Filter.antt has the filters of its list. Decoding of bytes, dates, JSON.parse and
-- JSON.stringify are the parameter Platform. Subscribers and the reading of body files are left out.
--
-- AppLog.antt is app-log.ts.
--
-- Metrics.antt is src/observability/metrics.ts; Metrics/Prometheus.antt prints the counters.
--
-- Rules/Validate.antt is src/rules/validate.ts on parsed JSON. Issues.antt, Matchers.antt,
-- Actions.antt and Stages.antt below it have its parsers. A parser that reports one error and returns
-- undefined is a result with that error; parseMatcher and validateRule, which collect errors, are
-- pairs of a list of findings and what was parsed, and a finding may also be the TypeError of a field
-- named like a member of Object.prototype, which makes the validation `thrown`. RegExp, Date.parse,
-- randomUUID and the validator of gRPC bodies are parameters. Numbers that are not integers have no
-- value; Valid.antt says what a well-formed rule is.
--
-- Proxy/Patch.antt is src/proxy/patch.ts for HTTP responses, Proxy/Patch/Grpc.antt for those of gRPC:
-- a response that comes back also where the patch is refused, with the flags or the message of the error. The decoders of UTF-8 and base64
-- are parameters; an object key `__proto__` or an array index among the header names is left out.
--
-- Proxy/Pipeline.antt is src/proxy/pipeline.ts, the handling of one exchange, over the evaluation of
-- the rules, the actions, the bodies, the patches and the headers above. Exchange.antt has its data
-- and the writing of the log entry; Stages.antt the faults, the request stage and the forwarding;
-- Reply.antt the response stage and the answer. A stretch of the code takes the variables and gives
-- them back with how it ended: it goes on, returns, throws, or waits on a stream that does not settle.
-- Calls on the client, the metrics and the logs are a list of effects, the last one first. What the
-- clock, the client and other requests do meanwhile is the record Course; the upstream and the
-- scripts are functions. Proxy/Upstream.antt has the addresses, requests and replies of upstreams.
--
-- Not modelled: listeners, upstream connections, TLS and streams, which are I/O; the script sandbox;
-- protobuf descriptors and reflection; the gRPC listener; the admin API; and the configuration.
pub mod Grpc
pub mod Json
pub mod Logging
pub mod Metrics
pub mod Prelude
pub mod Proxy
pub mod Rules
