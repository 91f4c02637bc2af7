-- ===== src/Lib.antt =====
-- Bluek is a BLE GATT central for Linux: a client for Python programs that talks to the kernel's
-- Bluetooth sockets itself. This library models its core and shows what it does.
--
-- The parts, and the files that model them:
--   bluek/exc.py                          Prelude/Result: `Error`, and results
--   bluek/_util.py                        Util
--   bluek/uuids.py                        Uuids: `normalize_uuid_str`, `uuid_from_bytes`,
--                                         `uuid_to_bytes`
--   bluek/_att.py                         Att, by parts:
--     constants and GATT classes          Att/Codes, Att/Gatt
--     the client's state, `_on_data`,
--     `_on_close` and the handlers        Att/State
--     `_request`, `exchange_mtu`,
--     `write`, `write_command`, tasks     Att/Request
--     `read` and `_read_blob`             Att/Reading
--     the discovery primitives            Att/Discovery
--     `discover`                          Att/Services, and Att/Database: the trees that a server
--                                         can hold
--     any calls in a row                  Att/Session
--     callers at a time, and the lock     Att/Lock
--   bluek/_mgmt.py                        Mgmt: Mgmt/Codec, Mgmt/Socket, and Mgmt/Link for `open` and
--                                         `_send`
--   bluek/device.py                       Device
--   bluek/scanner.py                      Scanner
--   bluek/characteristic.py               Characteristic
--   bluek/_l2cap.py                       L2cap, with L2cap/Senders for several sends at a time
--   bluek/client.py                       Client: Client/Prescan for the scan in front of a connect,
--                                         Client/Connect for the loop over types and retries,
--                                         Client/Lifecycle for `connect` as a whole, `disconnect` and
--                                         `get_services`, Client/Gatt for reads, writes, notifications
--   bluek/_hci.py                         Hci
--   bluek/pairing.py                      Pairing
--   bluek/_shadow/bleak_retry_connector   Retry
--   bench/fixtures/fake_peripheral.py     Bench/Peripheral
--   bench/measure                         Measure, with the percentiles of bench/microbench/echo.py
--   bench/runner.py, bench/config.py      Bench/Runner
--   bench/scenarios                       Bench/Scenario: the read/write scenario over any stack;
--                                         Bench/Stream: the advert and notify scenarios
--   bench/report.py                       Report: the rows and the table of the results
--   bench/stacks/micro_fake.py            Bench/Micro: the stack of the micro mode
-- What they share of Python stands in Prelude (lists, dicts, integers, results), Bytes (`bytes` and
-- `struct`) and Texts (`str` methods, hexadecimal digits). A record of state keeps the attributes of
-- the object it models, in the words of the source, and logs of the calls that it makes; an
-- operation is a function on that record under the name of the method. The constructors of
-- `L2CAPSocket` and `MgmtSocket`, and of a client, start from `new_socket` and `new_client`.
--
-- How the parts meet: the ATT client sends through the socket of bluek/_l2cap.py and is told of what
-- comes in by `_on_data` and `_on_close`. In Att this is the parameter `answer`: it takes a PDU that
-- is sent and gives whether the send raised and which events the event loop handles until the waiting
-- task runs again, in their order, so a theorem for every `answer` holds for every peer and every
-- interleaving of one caller with the event loop. Bench/Peripheral is one such peer, made from the
-- program's own in-memory peripheral. For several callers at a time Att/Lock has the steps of
-- `_request` as a relation. The contracts of a server are records: `ServesValue` for a value that is
-- read in parts, `ServesRange` for the attributes of a range, `ServesTree` for a tree of services;
-- Att/Database/Server is a server of any tree. The scanner owns a management socket, whose commands
-- take what the kernel does as an argument. The stack of the micro mode puts the ATT client on the
-- in-memory peripheral; the scenario takes a stack as a parameter, and `Serves` is what it needs of
-- one to run to its end, which the micro stack gives.
--
-- Bounds and fuel: bytes are natural numbers and a PDU is a list of them; packing refuses numbers that
-- do not fit. The loops of reads and walks have 65537 rounds of fuel: an offset and a handle have two
-- bytes, each round of a read adds a byte and each round of a walk moves the start handle up. The EIR
-- loop and the UTF-8 decoder take at least a byte in a round, and have the length as fuel. The connect
-- loop sleeps before a retry, and has the time to the deadline as fuel.
--
-- Floating point is a parameter: the rounding of a percentile's rank, the ratios of the measures, and
-- the texts of numbers in the report. A percentile is asked for a whole percentage, as its callers do.
--
-- Not modelled: system calls and ctypes, and what sysfs, /proc and ioctls hold, which are arguments;
-- the import shims; the stacks of the bench that need a radio or D-Bus, its echo servers; the command
-- line. Callbacks return and do not raise, but for the callback of a pairing. Messages of exceptions
-- are left out.
pub mod Att
pub mod Bench
pub mod Bytes
pub mod Characteristic
pub mod Client
pub mod Device
pub mod Hci
pub mod L2cap
pub mod Measure
pub mod Mgmt
pub mod Pairing
pub mod Prelude
pub mod Report
pub mod Retry
pub mod Scanner
pub mod Texts
pub mod Util
pub mod Uuids
