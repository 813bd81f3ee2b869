-- ===== src/Lib.antt =====
-- Verification of the chat application's realtime core: how a published event is routed and reaches a
-- socket, how a channel's inserts are put in line, who may listen, and how far a user has read.
--
-- The program is a Node.js backend (backend/src) and a browser client (frontend/src). A post to a channel
-- is inserted under a lock of the channel, published to Redis, received by every process that subscribed
-- to the topic, and sent to that process's sockets through one queue per socket.
--
-- Realtime/Aliases.antt and Fanout.antt: backend/src/realtime/realtimeEventAliases.ts, the names of events
--   and the copies of a publish under its other names.
-- Outbound/Payload.antt: backend/src/websocket/outboundPayload.ts. `Prepared` is what prepareSocketPayload
--   returns; a parsed payload is a `Value` (Value.antt), whose numbers are natural. Payload/Commands.antt
--   is extractInternalUserFeedCommand and the topic prefix of the metrics.
-- Outbound/Socket, Flush, Drain and Send: backend/src/websocket/outboundQueue.ts. `Socket` is the state of
--   one socket: its two queues, the frames given to `ws.send` whose callback is still to come, and the
--   callbacks made so far. flushOutboundJob is `flush_outbound_job`, the callback of its send is
--   `send_done`, drainOutboundBatch is `drain_outbound_batch`, sendPayloadToSocket is
--   `send_payload_to_socket`. Outbound/History.antt is every way into that code, one event at a time.
-- InsertLock: backend/src/messages/channelInsertConcurrency.ts. `Locks` holds the module's variables.
--   A request runs between two awaits as one step; Exclusion.antt has the steps of all requests of a
--   process. Redis answers through lists of replies.
-- RecipientDedupe: backend/src/websocket/fanoutRecipientDedupe.ts. The clock is an argument.
-- Subscription/Registry.antt: backend/src/websocket/subscriptionRegistry.ts.
-- Subscription/Manager.antt and Requests.antt: backend/src/websocket/subscriptionManager.ts. `Hub` is the
--   process's maps with the registry; a request is cut at its await, and Steps.antt has all interleavings.
--   A topic of a user or a community in a batch is started in the batch and goes on as a request of
--   its own.
-- ReplayAdmission: backend/src/websocket/replayAdmission.ts and replayAdmissionState.ts.
-- LockPressure: backend/src/messages/messageInsertLockPressure.ts, the window that sheds read receipts.
-- Pressure/Delivery.antt: backend/src/websocket/wsDeliveryPressure.ts, `Gate` being the module's variables;
--   Pressure/Overload.antt: backend/src/utils/overload.ts.
-- Hydration/Scheduler and Requests: backend/src/websocket/bootstrapHydrationScheduler.ts. `Scheduler` is the
--   variables of the closure with the place where the drain loop waits; `drain_step` is the loop up to its next
--   await, the answer and the end of a hydration are `hydration_answered` and `hydration_finished`, and a
--   promise's value stands in `settled`. Steps.antt has every interleaving; Work.antt runs what is pending.
-- AccessCache: backend/src/utils/accessVersionCache.ts and versionedAccessCache.ts, over the interface `Redis`.
-- Acl: backend/src/websocket/channelKeyParse.ts, redisPubsubTopicUtils.ts (normalizeCommunityTopic),
--   aclCacheStore.ts and channelAcl.ts. `Store` is the two caches; a check is cut at its awaits, and
--   `run_check` is one that nothing interrupts.
-- UserFeed: backend/src/websocket/userFeed.ts and the shard of communityFeed.ts. A publish is the list of
--   channel and payload pairs that are given to Redis; `Directory` answers which workers own a user.
-- ReadState: backend/src/messages/lib/readReceiptStateLua.ts (the script), readReceiptState.ts
--   (advanceReadStateCursor) and backend/src/messages/readState/batchReadState.ts. `Stores` is Redis and the
--   table read_states, where the end of a key's lifetime is a step of its own; the flush of a batch is
--   cut at its awaits, with the failures of its commands as an argument (`Batching`).
-- MessageList: frontend/src/stores/chatStoreMessageList.ts.
-- Singleflight: backend/src/utils/distributedSingleflight.ts. `Flights` is one key's lock in Redis and each
--   process's map of runs; `happen` is one event of any run, or the expiry of the lock. Ttl.antt is
--   setJsonCacheWithStale.
-- Unread: frontend/src/lib/unread.ts and frontend/src/stores/chatStoreUnreadModel.ts.
--
-- How the parts meet: the queue suppresses, deduplicates and classifies by Outbound/Payload, which asks
-- Realtime/Aliases; the callbacks that the queue makes are those by which a caller confirms or
-- releases a reservation of RecipientDedupe; the manager asks the registry before it lists a socket. The
-- latencies that the queue measures go to Pressure/Delivery; the access check guards the manager's requests.
--
-- Shared helpers are in Common: Boolean tests and equality, lists measured by native numbers, the JavaScript
-- Map in insertion order, and sets.
--
-- Bounds: no model runs on fuel but two loops, with the measure that the source has. The binary
-- search is given the length of the list as its fuel, which the proof shows to be enough; the wait for
-- the replay gate counts down the configured attempts. The drain counts down its batch limit. The
-- scheduler's loop is run one await at a time; that it comes to rest is shown by a measure on its state.
--
-- Parameters are what is not this repository's code: `ws` (the buffered amount after a send, the state after
-- terminate), Redis (its replies), Date.parse, JSON.parse, JSON.stringify, Number, String.trim, charCodeAt,
-- floating point on ratios and multipliers, the order
-- of sort, localeCompare, Math.random, process.memoryUsage, and which commands of a batch Redis fails. The
-- functions that subscriptionManager.ts is given on creation are parameters as well.
--
-- Not modelled: metrics, logs and spans, the SQL of the routes, presence, the batches of subscriptions that a
-- bootstrap makes, replay from the database, the requests for unread counts and the rendering of the client.
pub mod Common
pub mod Singleflight
pub mod Unread
pub mod UserFeed
pub mod Value
pub mod ReadState
pub mod Realtime
pub mod Outbound
pub mod AccessCache
pub mod Acl
pub mod Hydration
pub mod InsertLock
pub mod Pressure
pub mod RecipientDedupe
pub mod Subscription
pub mod ReplayAdmission
pub mod MessageList
pub mod LockPressure
