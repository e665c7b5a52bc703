-- ===== src/Lib.antt =====
-- protoactor_cpp: a model of the actor library, and what holds of it.
--
-- The parts and how they meet:
--   - Mailbox (src/actor/mailbox.cpp). DefaultMailbox: two queues, two counters and a status that is
--     taken by compare and exchange. A thread is a program point with its locals; `advance` is one
--     step of it, up to its next access to shared state, and `Step` lets the threads interleave in
--     any order, while any thread posts at any time. The accesses are taken as sequentially
--     consistent, which is more than the release and relaxed orders of the code give. A handler may
--     throw, and then the task ends. What is pushed is not null. The dispatcher runs each task it is
--     given on some thread, in its own time.
--   - Pid (src/actor/pid.cpp, new_pid.cpp): PID, NewPID and PID::Equal.
--   - Registry (src/actor/process_registry.cpp): ProcessRegistry with its 1024 shards, and
--     Uint64ToID in Registry/Ids. Registry/Refinement has the flat table that it is compared with.
--     Every operation holds the lock of one shard, so the operations are taken one after the other.
--   - EventStream (src/actor/eventstream.cpp): subscriptions are objects in a heap, the stream holds
--     pointers to them. SubscribeWithPredicate sets the predicate right after Subscribe; nothing is
--     published in between here.
--   - Supervision (src/actor/supervision.cpp): the strategies as functions from a failure to the
--     call made on the supervisor, and RestartStatistics. The clock is an argument.
--   - Messages (include/external/messages.h, src/actor/messages.cpp): the message classes, and the
--     envelopes that are told apart by a magic number.
--   - Context (src/actor/actor_context.cpp): ActorContext. Context.antt has its state and what it
--     sends, Context/Invoke how it handles messages, Context/Timers the receive timeout. The actor,
--     what the producer makes and the receiver middleware are arguments, the sender middleware a
--     field. What the context does to others goes to a log, in order. A message that is no system
--     message, and that the code casts to one all the same, is taken to fail every cast.
--   - Future (src/actor/future.cpp): FutureImpl with its mutex, if it were constructed. NewFuture
--     throws, as the constructor calls shared_from_this: the calls of the other parts that make a
--     future throw there. A call of a future either returns or waits for ever. What waits for the
--     future can see it only under the mutex.
--   - Persistence (src/persistence/persistence.cpp): the in-memory provider, built without protobuf.
--   - Dedup (src/actor/deduplication_context.cpp): DedupState, and the middleware that asks it.
--   - Router (src/router/router.cpp): the four routers. What a distribution draws and what a hash
--     gives are arguments. There are fewer than 2^31 routees.
--   - RouterGroup (src/router/router_group.cpp): the group and the pool, over the Spawn below.
--   - Middleware (src/actor/middleware_chain.cpp): the chain, for any type of handler.
--   - ThreadPool (src/actor/thread_pool.cpp): the queue, the two shutdowns and the workers. A run is
--     a list of moves of any threads, each the part of a function under the mutex, or the end of a
--     task.
--   - Spawn (src/actor/props.cpp, actor_context.cpp): the default spawner and the names of children.
--     What is outside of the new actor's own objects is a `World`.
--   - EndpointWatcher (src/remote/endpoint_watcher.cpp): who watches whom at one remote address.
--     Whether a name has a local process is an argument.
--   - RootContext (src/actor/root_context.cpp, src/actor/pid.cpp): sending, requests and spawning
--     from outside of actors. What a PID stands for is looked up in the registry of Registry.
--   - DeadLetter (src/actor/deadletter.cpp): the process of dead PIDs. `Run` says where the behaviour
--     is undefined and where an exception is thrown.
--   - ActorSystem (src/actor/actor_system.cpp, extensions.cpp): its id, its shutdown, its extensions.
--   - Behavior (src/actor/behavior.cpp) and PidSet (src/actor/pidset.cpp).
--   - Timer (src/scheduler/timer.cpp): the thread and the cancel function of a timer, as steps.
--   - EndpointManager (src/remote/endpoint_manager.cpp): the connections by address. A history is a
--     list of calls (EndpointManager/Calls); Stop throws if the activator was spawned. Whether a
--     name has a local process is an argument.
--   - Serializer (src/remote/serializer.cpp): the registry of serializers, each an argument.
--   - Wire: what SendMessageBatch of src/remote/endpoint_writer.cpp writes and HandleMessageBatch of
--     src/remote/grpc_service.cpp reads. A field of a protobuf message has the value that was set.
--   - EndpointWriter (src/remote/endpoint_writer.cpp): what gRPC answers is an argument, for each
--     attempt to connect and for each write.
--   - EndpointReader (src/remote/endpoint_reader.cpp, grpc_service.cpp): from a batch to the
--     processes.
--   - BlockList (src/remote/blocklist.cpp), Activator (src/remote/activator_actor.cpp), whose Receive
--     never calls the handler that is modelled, and Remote (src/remote/remote.cpp,
--     remote_process.cpp).
--   - PubSub (src/cluster/pubsub.cpp, pubsub_delivery.cpp): subscribers are pointers, as numbers.
--     Stop with a delivery actor and the delivery to a subscriber throw.
--   - MemberList (src/cluster/member_list.cpp, member.cpp), IdentityLookup
--     (src/cluster/pid_cache.cpp, identity_lookup.cpp) and Gossip (src/cluster/gossip.cpp). The
--     clock, the hash and what a random choice draws are arguments.
--   - Cluster (src/cluster/cluster.cpp, gossiper.cpp): start and shutdown, and the gossiper's
--     threads.
--   - TestProbe (src/testkit/testprobe.cpp): its loops run on fuel, a number of polls that are 10 ms
--     apart.
-- The mailbox calls the context, the context sends through PIDs, a PID is resolved by the registry.
-- A remote PID is resolved to a RemoteProcess, which calls the endpoint manager; the writer's batches
-- reach the other side's reader, which sends through its root context.
--
-- Base and its children hold the shared parts: Boolean tests, equality, lists, sets and association
-- lists on the native numbers, and the signed counters. The modules named Examples run the code on
-- small inputs.
--
-- Loops: the mailbox and the pool need no fuel, since a run is a sequence of steps. Uint64ToID runs on
-- 11 rounds, as each takes 6 of the 64 bits. The loops on the stash run on fuel that is an argument,
-- as the actor decides how long they go on: it can stash again what it is given.
--
-- The numbers: hash_from, the name counter and the counter of the stream wrap at the width of their
-- type. The counters of the mailbox do not, as a wrap needs 2^31 pending messages. Nor do the sequence
-- numbers of the gossip, and a batch has fewer than 2^31 messages.
--
-- Not modelled: gRPC, protobuf and JSON, which are other projects' code; the header of a remote
-- message, which the writer does not send; the cluster providers, the construction of the actor
-- system, the guardians, the dispatchers, the pool's destructor, streams, logging and metrics.
-- max_retries and the durations are not negative.

pub mod Base
pub mod Activator
pub mod ActorSystem
pub mod Behavior
pub mod BlockList
pub mod Cluster
pub mod Context
pub mod DeadLetter
pub mod Dedup
pub mod EndpointManager
pub mod EndpointReader
pub mod EndpointWatcher
pub mod EndpointWriter
pub mod EventStream
pub mod Future
pub mod Gossip
pub mod IdentityLookup
pub mod Mailbox
pub mod MemberList
pub mod Messages
pub mod Middleware
pub mod Persistence
pub mod Pid
pub mod PidSet
pub mod PubSub
pub mod Registry
pub mod Remote
pub mod RootContext
pub mod Router
pub mod RouterGroup
pub mod Serializer
pub mod Spawn
pub mod Supervision
pub mod TestProbe
pub mod ThreadPool
pub mod Timer
pub mod Wire
