-- ===== src/Lib.antt =====
-- Models of parts of nestelia, a framework for HTTP servers in TypeScript, and theorems about them.
--
-- Dependency injection (packages/core/src/di). A container registers modules; a module holds
-- providers and controllers, each behind an instance wrapper, and imports other modules. A client
-- asks the container for a token; the container finds the wrapper, and its injector makes the
-- instance with the instances of the parameters. Modules and wrappers are objects that others
-- refer to, so they stand in lists and a reference is an index.
--   Di/Wrapper.antt    instance-wrapper.ts: InstanceWrapper, its contexts and their instances
--   Di/Module.antt     module.ts: Module, addProvider, getProviderByKey, getControllerByKey
--   Di/Container.antt  container.ts: the registry, global modules, register, clear
--   Di/Injector.antt   injector.ts: loadInstance, resolveConstructorParams, instantiateClass
--   Di/Injector/Resolve.antt  injector.ts: resolveDependency
--   Di/Get.antt        container.ts: get and getFromModule
--
-- Events (packages/event-emitter/src/event-emitter.service.ts). The service keeps registrations in
-- two indexes, one for exact names and one for patterns.
--   Emitter/Pattern.antt   isWildcardPattern, compilePattern and the expressions that it builds
--   Emitter/Registry.antt  the service's operations
--
-- Subscriptions (packages/graphql-pubsub/src). Redis connections are shared between the
-- subscriptions to a channel; an asynchronous iterator subscribes to channels and turns their
-- messages into the answers of its `next`.
--   PubSub/Redis.antt     redis-pubsub.ts: subscribe, unsubscribe, onMessage, debug
--   PubSub/Iterator.antt  pubsub-async-iterator.ts: next, return, pushValue, subscribeAll, teardown
--
-- Routing keys (packages/rabbitmq/src/amqp/utils.ts), by which a message finds its handlers.
--   Rabbit/Routing.antt   matchesRoutingKey
--
-- The TCP transport (packages/microservices/src/transports/tcp.server.ts, client/tcp.client.ts). Both
-- ends cut their stream into lines of JSON; the client awaits replies, the server calls handlers.
--   Tcp/Wire.antt    what both use of Node: JSON, StringDecoder, Buffer.byteLength, as parameters
--   Tcp/Frames.antt  the buffer and its lines
--   Tcp/Client.antt  TcpClient: send, handleData, rejectPending, close, and its timers
--   Tcp/Server.antt  TcpServer: handleMessageLine, sendMessage, emitEvent, close
--   Tcp/Server/Closed.antt  what can happen to a closed server
--
-- GraphQL subscriptions (packages/apollo/src/services/graphql-ws.handler.ts). A WebSocket connection
-- has subscriptions, each with a loop that pulls a source stream, and timers.
--   Apollo/Timeouts.antt    resolveTransportIdleTimeout, resolveKeepAliveTimeout
--   Apollo/Streams.antt     the map of subscriptions, the handles and their iterators
--   Apollo/Connection.antt  handleOpen, handleMessage, handleClose, dispose, startKeepAlive
--   Apollo/Loop.antt        executeSubscription and handleAsyncIterator, from await to await
--   Apollo/Session.antt     what can happen to a connection, as steps
--
-- The scheduler (packages/scheduler/src). It keeps the handles of the tasks that it started.
--   Scheduler/Cron.antt     interfaces/cron.interface.ts: isValidCronExpression
--   Scheduler/Service.antt  services/scheduler.service.ts and the tasks of tasks/
--
-- Route handlers (packages/core/src/core). A route takes one of three paths; only the full path has
-- guards and interceptors.
--   Route/Params.antt    route-handler.ts: compileResolver, compileResolvers; param-resolver.ts:
--                        resolveParam
--   Route/Pipeline.antt  route-handler.ts: createRouteHandler, runGuards, buildParamsOnlyHandler
--
-- Exception filters (packages/core/src/core/exception-filter.registry.ts), which are asked in order.
--   Core/Filters.antt    addGlobalExceptionFilter, applyExceptionFilters
--
-- Lifecycle hooks (packages/core/src/lifecycle/lifecycle-manager.ts and the second pass of
-- initializeSingletonProviders in packages/core/src/core/module.utils.ts), from the instances that
-- the first pass collected.
--   Core/Lifecycle.antt  register, runHook, triggerOnApplicationBootstrap, clear, the calls of
--                        onModuleInit and the registration
--
-- Base.antt and its children hold what the parts share: Boolean tests, lists under native indices,
-- and the Map of JavaScript as an association list in insertion order.
--
-- Bounds and fuel. The search over imports runs on fuel above the number of modules, and a theorem
-- shows that this is enough. Merging runs on fuel above the number of entries. The injector takes
-- fuel for the depth of its calls, and running out of it is a result of its own; cycles of aliases
-- have no depth that is enough. The counters of registrations and subscriptions are natural
-- numbers, as no program reaches the end of the safe integers. Options, delays and times in
-- milliseconds are natural numbers.
--
-- Code that awaits. A load of the injector and a call of `get` are run to their end before another
-- one starts, and so are the guards, interceptors and filters of one request. The subscriptions, the
-- iterator, the WebSocket connection, the TCP ends and the scheduler are split where they await, and
-- the parts run as steps in any order. Observers of the TCP client and callbacks of tasks do not call
-- the object that calls them.
--
-- Not modelled: the decorators and their metadata, which are parameters; the classes, factories,
-- guards, handlers, hooks and callbacks of a program; the Redis client, the GraphQL engine and the
-- cron library; JSON and the UTF-8 decoder, which are parameters with their documented behaviour;
-- the text of messages and logs; the error of RegExp for an event pattern whose delimiter would be
-- a reversed range of characters; emitAsync; the timers of 5 seconds by which the GraphQL handler
-- bounds its wait for `return` of an iterator; instances per inquirer; the other packages of the repository.
pub mod Base
pub mod Di
pub mod Emitter
pub mod PubSub
pub mod Rabbit
pub mod Tcp
pub mod Apollo
pub mod Scheduler
pub mod Route
pub mod Core
