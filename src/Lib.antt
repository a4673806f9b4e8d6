-- ===== src/Lib.antt =====
-- libtr, the client library of the TR50 protocol, which speaks JSON over MQTT. This library models
-- its MQTT client, from the bytes of a message up to the client that keeps a connection, and the core
-- of the TR50 layer above it, and proves what makes each part correct.
--
-- The parts and where they stand. Paths are from the root of the repository.
--   Error, Memory: the return codes of include/tr50/error.h and the blocks of memory of
--     src/util/linux/linux.memory.c. A block is the list of its bytes, a pointer into it an offset,
--     and an access outside a block is the result `fault`.
--   Blob: the growing buffer of src/util/common/tr50.blob.c. `realloc` is a parameter.
--   Mqtt/Header: the remaining length of the fixed header, `_mqtt_decode_header_length` and
--     `_mqtt_encode_fixed_header_len` of src/mqtt/mqtt.msg.c.
--   Mqtt/Build: the `_mqtt_msg_build_*` functions of that file, which write a message into a block.
--   Mqtt/Process: its `mqtt_msg_process_*` functions, which take a message apart.
--   Mqtt/Qos: the table of messages that wait for an acknowledgement, src/mqtt/mqtt.qos.c.
--   Mqtt/Net: the calls of the platform, include/tr50/util/tcp.h and time.h, as a record of
--     functions on an abstract world: every theorem holds for each platform, or names what it asks
--     of it.
--   Linux/Tcp: `_tcp_send` and `_tcp_recv` of src/util/linux/linux.tcp.c over the calls of the kernel,
--     with fuel for the loop of sends: a round for each byte and one more is enough.
--   Linux/Proxy: the requests to SOCKS proxies and the encoding of credentials,
--     src/util/linux/linux.tcp_proxy.c, on a peer whose answers are given.
--   Mqtt/Client, Mqtt/Connect: the connection and the requests on it, src/mqtt/mqtt.c.
--   Mqtt/Recv: `mqtt_recv` of src/mqtt/mqtt.recv.c, which reads one message from the socket.
--   Mqtt/Async: the client that connects again, src/mqtt/mqtt.async.c, with its thread in
--     Mqtt/Async/Handler.
--   Tr50/Pending: the requests that wait for a reply, src/tr50.pending.c, a doubly linked list whose
--     messages stand in a store, known by their addresses.
--   Tr50/Mailbox: the checks of the mailbox, src/tr50.mailbox.c.
--   Tr50/Stats, Tr50/Config: the counters and the configuration, src/tr50.stats.c and
--     src/tr50.config.c. A text that the configuration owns is NULL, a block, or a block that was
--     freed.
--   Tr50/Client: the client's record, its start and stop and the handlers of what it receives,
--     src/tr50.c. It holds the list of requests, the mailbox, the configuration, the counters and
--     the MQTT client. The identifier of a call is printed into a topic and read from the topic of
--     the reply (Tr50/Client/Decimal).
--   Tr50/Dispatch: the commands and methods that the application registers, src/tr50.command.c and
--     src/tr50.method.c, and the items of the mailbox that call them, src/tr50.mailbox.c. A callback
--     is the code it returns; an acknowledgement is noted, not sent.
--   Tr50/Api: the identifiers, payloads and calls of src/tr50.api.async.c. A call joins the list of
--     requests with the MQTT client, and a sweep of the expiration thread may come while the
--     message is published.
-- The table, the connection and the state are fields of the client's record, as in the source; the
-- requests and the rounds of the thread are functions from a record and a world to the code that
-- the C function returns, a new record and a new world. `ok (ret, ..)` is a return of the code
-- `ret`. The callbacks of the application are recorded in the field `events`.
--
-- Fuel: `decode_loop` runs at most four rounds, which is proved enough. The loops of `mqtt_recv` and
-- of the thread depend on what the platform answers and need not end; `stuck` says that the fuel ran
-- out. For a socket that delivers a message, fuel for a round per byte is proved enough, and for the
-- searches of the pending list, more than its length.
--
-- Not modelled: the wrap of counters of type `int`, times and lengths below 0 (a sum or a product
-- of lengths that an `int` does not hold is a `fault` in Mqtt/Build and Linux/Proxy), the time that
-- a call of the platform is told to wait, the logs, the interleaving within a function (a
-- function holds the mutex or is a step), the deletion of handles, the JSON library and
-- the messages built with it (src/tr50.message.c, src/tr50.payload.c and the acknowledgements of
-- commands), the synchronous calls, the worker interfaces, the connection of a socket, TLS, the
-- HTTP proxy, and the platform layers under src/util other than Linux.
pub mod Base
pub mod Blob
pub mod Error
pub mod Linux
pub mod Memory
pub mod Mqtt
pub mod Tr50
