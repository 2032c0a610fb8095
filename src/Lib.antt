-- ===== src/Lib.antt =====
-- emicro, a micro-service framework: an RPC protocol of its own, with server and client; and, around
-- gRPC, a registry of service instances, a resolver, load balancers, clusters and rate limiters.
--
-- What is modelled, and where (paths are the repository's):
-- - Message (rpc/message): Request holds the wire format of requests (EncodeReq, DecodeReq,
--   CalculateHeaderLength, CalculateBodyLength) and Response the one of responses. Wire has what
--   both share: big-endian words, slices with Go's bounds, and the separators. A slice that leaves
--   its bounds is the outcome panic. A map is an association list in the order in which a range
--   visits it. The loop of DecodeReq over the meta data runs on fuel, one more than the length of
--   the header: each round takes at least one byte off, so it never runs out; the map that it makes
--   is not returned.
-- - Rpc: Codec holds the interfaces of rpc/serialize and rpc/compress and the texts of
--   internal/errs; Stub and Server are rpc/server.go, the first its reflection stub, the second its
--   tables, Invoke and handleConn; Client is rpc/context.go and the function that setFuncField of
--   rpc/client.go makes, what reflect.MakeFunc does with its results included; Transfer is
--   Client.Invoke and doInvoke; Ids has runs of several calls. The values of type any, the methods
--   of services, the serializers, the pool of connections and strconv.ParseInt are parameters. A
--   method can change the state of the services, which is passed on. ReadMsg of rpc/tcp panics in
--   the source, and so does doInvoke where it calls it; handleConn takes the outcomes of its calls
--   as a list. Race is Client.Invoke again, its goroutine and its caller as steps that interleave.
--   Fields is the loop of setFuncField over a service with NewClient, InitService and
--   InitClientProxy; Accept is Start and Close of the server; Gzip is rpc/compress/gzip over the
--   library's reader and writer.
-- - Balance (loadbalance): Types has the filters and what is read of gRPC's types, and each picker
--   has a module: RoundRobin, WeightRoundRobin (roundrobin), LeastActive, Random, WeightRandom
--   (random), Hash, Fastest and P2c. Best is the loop that picks the best connection, which three of
--   them share. Build ranges over a map of ready connections, here the list in the order of the
--   range; WeightRandom.Order has the map itself, as a quotient of the lists. uint32, uint64 and
--   int64 wrap as in Go, the last as words of two's complement. A pick, and its Done, is one step in
--   the module of its picker. Three have a second model, which interleaves what the program can
--   interleave: WeightRoundRobin.Turns has the sections of a pick and of its Done that hold the
--   mutex of one connection, LeastActive.Turns their atomic operations, and P2c.Stages the atomic
--   operations of Done, where only Pick and the log hold the lock. rand.Intn is a parameter, and in
--   P2c also float64 with package math, of which the laws that are relied on are named where they
--   are used. `none` is ErrNoSubConnAvailable. Fastest.Refresh is the goroutine of Build and its
--   query of Prometheus, whose answer is a parameter.
-- - Internal (internal): Codes, Xsync (utils/xsync), Xtime (utils/xtime), Entropy (utils/xmath) and
--   RandString (utils/xstring). The loop of Randn runs on fuel: ten rounds for each letter are
--   enough where every number of the source has a letter in it.
-- - Limit (ratelimit): Types has the strategies for a rejected request and the limiter of one
--   method; FixWindow its interceptor, as a whole and as atomic operations that interleave;
--   SlideWindow its interceptor under the mutex; TokenBucket and LeakyBucket are step relations,
--   since their selects choose. Redis is the two limiters over the commands of Redis, which are
--   parameters, with the scripts of ratelimit/lua; Redis.Window has runs of the sliding window's
--   script. Times and rates are not negative.
-- - Discovery: Etcd is registry/types.go with Register, Unregister and ListServices of
--   registry/etcd/registry.go, over a client of etcd that is a parameter; Subscribe is its
--   Subscribe, the goroutine as a step relation on what etcd's watch channel offers, and Close.
--   Resolver is resolver.go, Updates joins it to the registry, Addresses to the pickers, and
--   Rotation to the group filter and the round robin. Service is server.go, as the calls that it
--   makes, and Lifecycle joins its Start and Close; Dial is client.go.
-- - Cluster: Broadcast is cluster/broadcast; the order in which its goroutines end is an argument.
--   Responses is what the goroutines of cluster/broadcastall and cluster/fastest offer to their
--   channel, Channel the goroutines and the channel as a step relation, and Interceptor the
--   interceptors around them, with the variable err that they share with the goroutines.
-- - Observability: Methods is splitMethodName, Metrics the interceptors of metrics/prometheus as
--   what they write, and Tracing those of opentelemetry, from the context of a call to what they
--   return, with the calls on their spans. The libraries are parameters.
-- - Example (example/rpc): the services of the server and their registration, up to Start, and the
--   whole client, over a connection that is a parameter. Groups has the servers of example/group and
--   example/broadcast, and the client of the first.
-- - Common: lists, outcomes (return, panic, out of fuel), wrapping words and association lists.
--
-- Nil and empty slices are the same list, and a slice has no capacity beyond its length.
--
-- Not modelled: the client of example/broadcast, which calls a method that is not there; tests,
-- mocks and generated code.
pub mod Common
pub mod Internal
pub mod Message
pub mod Balance
pub mod Rpc
pub mod Limit
pub mod Discovery
pub mod Cluster
pub mod Observability
pub mod Example
