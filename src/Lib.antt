-- ===== src/Lib.antt =====
-- mqmgateway polls registers of modbus devices and publishes them over MQTT. This library models
-- the core of libmodmqttsrv, the integer converters and the map converter: what is polled, when, in
-- which order, with which delays and retries, what the modbus thread of one network reports, and
-- what the MQTT client makes of it.
--
-- The parts. The configuration asks for polls; those of one network are merged and grouped
-- (`MsgRegisterPollSpecification`). The modbus thread keeps them in a scheduler, which tells the
-- polls that are due. The executor keeps queues of polls and writes for each slave, chooses the
-- next command, keeps the delays between commands, calls the modbus library, retries, and sends
-- messages to the main thread. A watchdog inspects each command and tells when to reconnect. The
-- main thread gives the messages to the MQTT client. It keeps them in the registers of its objects,
-- publishes an object's state and availability, turns MQTT messages on command topics into writes,
-- and RPC requests into reads and writes, which it remembers until the modbus thread answers.
--
-- Files and code (paths under libmodmqttsrv/):
--   Address: modbus_types.hpp, modbus_types.cpp. `ModbusAddressRange`, its tests and its merge.
--   Poll, Group: modbus_messages.hpp, modbus_messages.cpp. `MsgRegisterPoll::merge`, both
--     `MsgRegisterPollSpecification::merge` and `group`.
--   Command: register_poll.hpp, register_poll.cpp. `RegisterPoll` and `RegisterWrite` in a store.
--   Queues: modbus_request_queues.hpp, modbus_request_queues.cpp. `queue_poll_list` is
--     `addPollList`, `queue_write_command` is `addWriteCommand`, the other names are those of the
--     source.
--   Scheduler: modbus_scheduler.hpp, modbus_scheduler.cpp. All operations.
--   Watchdog: modbus_watchdog.hpp, modbus_watchdog.cpp. All operations.
--   Executor: modbus_executor.hpp, modbus_executor.cpp. The state is in Executor, `sendCommand`
--     with reads and writes in Executor/Perform, `addPollList`, `addReadCommand` and
--     `addWriteCommand` in Executor/Queueing, `executeNext` in Executor/Next.
--   Thread: modbus_thread.hpp, modbus_thread.cpp. The settings of commands; the handlers of
--     messages are in Thread/Dispatch, the polls made of a specification in Thread/Registers, one
--     round of the loop of `run` in Thread/Run.
--   Convert: stdconv/int16.hpp, int32.hpp, uint32.hpp, int8.hpp, bits.hpp and
--     libmodmqttconv/convtools.hpp, from the root of the repository.
--   Value: libmodmqttconv/mqttvalue.hpp, from the root. `MqttValue` and its conversions.
--   Mapping: stdconv/map.hpp and map.cpp, from the root. `MapConverter`, with its `MapParser` in
--     Mapping/Parser; Mapping/Print has a printer of maps, which the code does not have.
--   Object: mqttobject.hpp, and the walks over the tree of nodes of mqttobject.cpp. Object/State
--     has the operations of the whole object, Object/Payload is mqttpayload.cpp.
--   Client: mqttclient.hpp and, of mqttclient.cpp, `start`, `shutdown`, `onDisconnect`;
--     modbus_client.hpp. Client/Publish has the publication and `onConnect`, Client/Responses the
--     answers to RPC requests, Client/Process the handlers of messages of the modbus threads and
--     `processModbusMessages` of modmqtt.cpp, Client/Commands the commands and
--     `onMessage`, with default_command_converter.cpp, Client/Rpc and Client/Message
--     `handleRpcRequest`. The other children have proofs.
--   Base has the shared helpers, Examples concrete data and runs.
--
-- The modelling. State is passed explicitly. Shared pointers to commands are references into a
-- store. Time points and durations are natural numbers of nanoseconds, readings of the clock and
-- answers of the modbus library, of `connect` and of the file system are arguments. An operation
-- that may fault (a failed assertion, a dereferenced end iterator, an endless loop) returns an
-- `Option`. Two loops run on fuel: the search for the next queues in `executeNext`, with the number
-- of queues and one, and the printing of decimal digits, with the number and one. Recursion is
-- structural everywhere else. Register numbers, counts and slave ids are natural numbers, without
-- the wrap-around of the code's `short` retry counts above 32767. The order that `std::sort` leaves
-- open for equal keys is the one of an insertion sort.
--
-- Texts that are only compared are native strings, payloads are lists of bytes. A converter is a
-- record of two functions. The parser of JSON, the text of a JSON value, the making of a converter
-- from its specification, and the acceptance of a publication by the MQTT library are arguments;
-- what the client asks of the library is recorded in its list of calls. The clock is read once in
-- each handler. Objects are in a store, by reference, as several registers may share one. A double
-- is an integer over a power of two.
--
-- Not modelled: the reading of the configuration, with the making of objects and of converters, the
-- calls of libmodbus and mosquitto, the expression plugin, the converters of texts, floating-point
-- numbers and bit masks, the parsers of a converter's name and arguments, logging, and the vendored
-- parser of options and lock-free queue. A network that is configured gets a new context, which is
-- not connected. An RPC request with a negative slave or register number that passes the checks is
-- outside the model, since the messages to the modbus threads have natural numbers: it has no
-- result.
pub mod Base
pub mod Address
pub mod Poll
pub mod Group
pub mod Command
pub mod Queues
pub mod Scheduler
pub mod Watchdog
pub mod Executor
pub mod Thread
pub mod Convert
pub mod Value
pub mod Mapping
pub mod Object
pub mod Client
pub mod Examples
