-- ===== src/Lib.antt =====
-- RyanMqtt: an MQTT 3.1.1 client for embedded systems.
--
-- The client keeps a list of subscriptions, two lists of acknowledgements that it waits for (one of
-- its thread, one that the user's calls fill), timers and a state variable. Its thread reads packets,
-- dispatches each to the handler of its type, and raises events, which change the state and call the
-- user's callback. All of it runs over a platform (clock, heap, network) and the packet serializer
-- coreMqtt.
--
-- The model is a shallow embedding with explicit state: an operation is a function from a World to
-- its result and the next World. A World holds the client, the number of the next platform call, the
-- numbers of heap allocations and frees, the bytes that the network took, and the callbacks made.
--   Prelude        lists, searches and tests that the files share
--   Public         mqttclient/include/RyanMqttPublic.h
--   Platform       mqttclient/include/RyanMqttPlatform.h and coreMqtt, as records of functions
--   Client, World  mqttclient/include/RyanMqttClient.h, and the state of the model
--   Timer, PacketId, Session, Network
--                  mqttclient/RyanMqttUtil.c: RyanMqttTimer*, RyanMqttGetNextPacketId,
--                  RyanMqttPurgeSession and the state variable, RyanMqttSendPacket and
--                  RyanMqttRecvPacket
--   Handler        mqttclient/RyanMqttUtileMsg.c and mqttclient/RyanMqttUtileAck.c: the handlers
--   Topic, Msg     mqttclient/RyanMqttUtileMsg.c: matching, and searching the subscriptions
--   Ack            mqttclient/RyanMqttUtileAck.c: the lists of awaited acknowledgements
--   Event          mqttclient/RyanMqttThread.c: RyanMqttEventMachine
--   Packet, Suback, Incoming
--                  mqttclient/RyanMqttThreadProcessPacket.c: the handlers of incoming packets,
--                  SUBACK and UNSUBACK, reading a packet and the dispatch
--   Keepalive, Scan, Connect, Thread
--                  mqttclient/RyanMqttThread.c: RyanMqttKeepalive, RyanMqttAckListScan,
--                  RyanMqttConnectBroker, and one round of RyanMqttThread
--   Publish, Subscribe, Unsubscribe
--                  mqttclient/RyanMqttClient.c: RyanMqttPublish*, RyanMqttSubscribe* and
--                  RyanMqttUnSubscribe*
--   Settings, Lifecycle
--                  mqttclient/RyanMqttClient.c: RyanMqttSetConfig, RyanMqttSetLwt, and
--                  RyanMqttStart, -Disconnect, -Reconnect, -Destroy and -DiscardAckHandler
--   Init, Query    mqttclient/RyanMqttClient.c: RyanMqttInit, the RyanMqttGet* calls with what frees
--                  their answers, and the event mask
--   Life           the calls of mqttclient/RyanMqttClient.c and the rounds of RyanMqttThread as the
--                  steps of a client's life
--   Ring           common/RyanMqttList.c and common/RyanMqttList.h, on a heap of nodes
--   Log            common/RyanMqttLog.c, on a buffer of 256 bytes
--   Socket         platform/linux/platformNetwork.c, on the calls of the system
--   Tests          runs on a small platform
--
-- An answer of the platform may depend on the number of the call, so no two calls need agree. A list
-- of nodes is a List; a loop that may remove the node it stands at knows the nodes before and after
-- it. A failed search or allocation is `none`. Memory is counted, not addressed: each handler is a
-- number of heap blocks. Where the code goes on with a node that was freed, which only
-- RyanMqttAckListScan can do, the World's field `dangling` is set and the function ends. Only Ring
-- has addresses: it says that the operations on the circular list and its loops do to the list what
-- the other modules do to a List.
--
-- The user's callback is recorded, with its event and data, and does nothing else: what the theorems
-- say of a round or a scan is said of a callback that makes no calls of the client. One such call is
-- documented, RyanMqttSetConfig in RyanMqttEventReconnectBefore, the last thing that its round does:
-- in Life it is the step behind that round. RyanMqttDiscardAckHandler in a callback that a scan raises
-- on its way (RyanMqttEventAckRepeatCountWarning) is not covered.
--
-- Loops. RyanMqttSendPacket and RyanMqttRecvPacket run on fuel, a number `rounds` of the platform and
-- one more. No number is enough for every clock, since a call may move no byte in no time: what
-- Network/Ends and Network/Receives show is that the fuel is enough if the time is up within that many
-- rounds, and all other theorems hold of every `rounds`. RyanMqttClearAckSession has one round for each
-- node, and one more; RyanMqttMatchTopic one for each character of the filter; reading a fixed header
-- two, which fill its buffer of five bytes, and a third round is the outcome `overrun`. The traversals in
-- Ring are given fuel, for which one more than the number of nodes is enough. All other loops follow
-- a list. The endless loop of RyanMqttThread is a function for one round, whose result says whether
-- the next round follows, the thread sleeps until the user starts it again, or it ends.
--
-- Life puts the parts together: a step is a call of the user's, a start, a round of the thread that
-- goes on, one that falls asleep, or the reconnection that wakes it. `Lives` holds of a state to
-- which such steps lead from a successful RyanMqttInit.
--
-- Not modelled: the locks (an operation under a lock is one step, and interleavings with other
-- threads are left out), the texts of RyanMqttStrError and of the log, the fault injection of the
-- Linux tests, coreMqtt, which is another project's library, the threads, locks and clocks under
-- platform/, and the network interfaces of platform/openLuat, whose code is the one of
-- platform/linux, and of platform/rtthread, which differs in a second source of errno.
pub mod Prelude
pub mod Public
pub mod Platform
pub mod Client
pub mod World
pub mod Timer
pub mod PacketId
pub mod Handler
pub mod Session
pub mod Event
pub mod Network
pub mod Keepalive
pub mod Scan
pub mod Connect
pub mod Thread
pub mod Publish
pub mod Subscribe
pub mod Unsubscribe
pub mod Settings
pub mod Lifecycle
pub mod Init
pub mod Life
pub mod Ring
pub mod Socket
pub mod Query
pub mod Log
pub mod Topic
pub mod Msg
pub mod Ack
pub mod Packet
pub mod Suback
pub mod Incoming
pub mod Tests
