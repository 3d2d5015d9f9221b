-- ===== src/Lib.antt =====
-- A verification library for the firmware of the ESP AC dimmer.
--
-- The parts of the program and the files that model them (paths from the repository's root):
--
-- * src/components/bus (Bus.h, BusAddr.h, Bus.cpp): a message bus between tasks. Bus.antt has the
--   registry: `connect`, `disconnect`, `join`, `leave`, `destination`, `resolve`. A client's
--   `m_addr` and `m_queue` are the record `BusClient`, `Bus::Client` and `Bus::Group` the records
--   of those names; the locked region of a method is one step. Bus/Tasks.antt has any number of
--   tasks on one bus, whose regions come in any order. Bus/Mutex.antt has the mutex and its guard,
--   which make a region one step, Bus/Commands.antt the visitors of BusCommand.h. Bus/Mailbox.antt
--   has the methods of `IBusClient`: `send`, `sendToNextClient` (`send_to_next`), `tryReceive`
--   (`try_receive`), `initialize` and the destructor (`destroy`). They use the registry and the
--   queues of FreeRTOS, which are the parameter `Queues` of Bus/Queues.antt with the laws
--   `QueueLaws`. The proofs stand below Bus, by what they prove: Valid and its clients Clients and
--   Groups the invariant, Joining, Resolving and Leaving the lookups, Mailbox/Relay and
--   Mailbox/Drain the messages.
-- * src/components/onewire (onewire.h, onewire.cpp): the driver of a 1-Wire bus. Onewire/Line.antt
--   has the slots and the reset over the five callbacks of `OneWire`, Onewire/Search.antt the
--   search for ROM numbers with the members that it keeps, Onewire/Crc8.antt both builds of `crc8`,
--   and Onewire/Crc16.antt `crc16` and `check_crc16`. Onewire/TemperatureSensor.antt has the
--   measurement of TemperatureSensor.cpp, over the line and `crc8`, and below it Celsius.antt the
--   two `getCelsius`, in sixteenths of a degree. Onewire/Enumeration.antt is the specification of
--   the search: the devices as the paths of a binary tree, and the order in which they are found.
--   Below Onewire/Search, Network.antt has the laws of the devices on the wire, as a parameter, and
--   its children show that each call of `search` finds the next path.
-- * src/components/common (InputStream.h, OutputStream.h and their sources): Streams.antt has the
--   two array streams, Streams/Values.antt the values that the base classes write and read. A
--   template over an element is a function of a `Codec`. Streams/Collections.antt has sets and
--   maps, over the containers of the standard library as the parameter `Collection`.
-- * src/components/netio (Messages.h): Messages.antt has the two messages and `create`, over the
--   streams, Messages/Handlers.antt the callbacks of Messages.cpp. UdpServer.antt has UdpSrv.cpp:
--   its socket, its clients, the dispatch on the messages and `sendData`; lwip and the clock are
--   the parameter `Lwip`, `std::set` is `ClientSet`. Wifi.antt has `handle_event` of Wifi.cpp and
--   the event bits of src/components/system (Events.h, Events.cpp), Wifi/Setup.antt `init_station`
--   and `init_acess_point`.
-- * src/components/common (utils.cpp): Utils.antt has `getCpuId` and `msecToSysTick`.
-- * src/main (main.cpp): Main.antt has the endless loop of `app_main` as any number of its passes,
--   over the search, the sensors and `sendData`, which is a parameter there. Main/Wiring.antt has
--   the pins and the callbacks for them, Main/Startup.antt `app_main` from its beginning, and
--   Main/Delivery.antt the loop together with the UDP server, whose state its delays may change,
--   and the pattern of a `float`, which Main/Delivery/Floats.antt is about. Main/Wiring/Observed.antt
--   is what `reset` does to the interrupts with the program's own callbacks.
--
-- A byte, and any other number of the code, is a natural number; where the code's type cuts a
-- number off the remainder is written out. An address of the bus is an integer of 32 bits, whose
-- increment wraps. A read behind the end of a buffer is `none`. A null pointer is the `none` of an
-- option.
--
-- Loops with a mask as their counter run on fuel 9: eight rounds, and one to see the mask 0. The
-- loop of `search` runs on fuel 64, one round for each bit of a ROM number. The loop of the
-- destructor runs on fuel that is above the messages and addresses left in the client's queue.
--
-- The reader of a list runs on fuel that bounds its markers; the number of bytes in the stream is
-- enough.
--
-- The loop of `run` is any number of its rounds. A `size_t` has 32 bits, as on the ESP8266.
--
-- A pause of the tasks is a parameter, and so are the calls of the ESP-IDF, whose errors end the
-- program.
--
-- Not modelled: the log and the firmware information, and the temperature in Fahrenheit, which only
-- the log has; the time that `tryReceive` waits; what a list holds whose reading failed. `run` and
-- `sendData` share `g_sock` and `g_clients` without a lock; each is modelled as one caller runs it,
-- and what the other task does in the middle of a call is not modelled, nor is `udp_srv_task`.
pub mod Prelude
pub mod Onewire
pub mod Bus
pub mod Streams
pub mod Messages
pub mod Utils
pub mod UdpServer
pub mod Wifi
pub mod Main
