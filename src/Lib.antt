-- ===== src/Lib.antt =====
-- A model of ttlock_ble, the client library for TTLock door locks over Bluetooth LE.
--
-- The client turns a command into a payload, seals it with AES, frames it, and writes the frame in
-- chunks to the lock; notifications of the lock are reassembled into frames, which are replies to the
-- command in progress or pushed events. The parts, bottom up, with paths from the root:
--
--   Base, Outcome, Text, DateTime, Json: bit operations, lists, Python's exceptions as values, integers
--     and text as code points with its conversions, the datetime type, and JSON objects.
--     An operation that can raise returns a Result.
--   Crypto: src/ttlock_ble/crypto.py. The cryptography package is the parameter Cipher, and CipherLaws
--     says what it documents; Crypto/Toy is an instance of those laws, used in the examples only.
--     Crypto/Keys has the formats of keys and passwords.
--   Frame: src/ttlock_ble/protocol/frame.py and constants.py: body and build, parse, both headers.
--   Reassembler: src/ttlock_ble/protocol/reassembler.py: the loop of feed as rounds that stop, skip or
--     emit; feed_all feeds the notifications of a connection.
--   Encoding: src/ttlock_ble/commands/encoding.py and envelope.py.
--   Commands: one module for each file of src/ttlock_ble/commands, under its name in the singular;
--     functions keep their names, private ones without the underscore.
--   Models: lock_version.py, virtual_key.py, lock_event.py and lock_advertisement.py of
--     src/ttlock_ble/models, and lock_feature.py and log_operate.py of src/ttlock_ble/constants; the
--     records of the other files stand with the parser that makes them. A lock version with a negative
--     number, which no lock has, is read as none.
--   Transport: src/ttlock_ble/ble/transport.py. The event loop and the link are a Turn: what is heard
--     during each write, which write fails, and the moments before the deadline, where a moment is a
--     notification or a wake-up of the waiting coroutine.
--   Transport/Link: connect, disconnect and the discovery of the same file, over a ConnectTurn or a
--     DisconnectTurn, which say what bleak answers; the calls that bleak carried out are recorded, and the releases that raised.
--     Once connect has returned, a BleTransport is linked.
--   Transport/Finder: src/ttlock_ble/ble/device_finder.py, the scan for a lock. A Poll is one sleep of its
--     loop, with the detections that the scanner of bleak reports meanwhile.
--   KeepAlive: src/ttlock_ble/ble/keep_alive.py. The event loop's tasks are states by number; a Meanwhile
--     is what other coroutines do while stop waits, and a Beat one round of run.
--   Client: src/ttlock_ble/client.py. A method is an Act on a Session, which holds the transport and a
--     Turn for each exchange to come; a raise keeps the state reached so far. Client/Core has the
--     handshakes and the command exchange, Client/Control, Settings, Lists and Log the commands,
--     Client/Events the listeners, Client/Lifecycle the connection and the window together, as a step
--     relation. Client/Core.VirtualKey has the fields of a key that the commands use.
--   Cloud: src/ttlock_ble/cloud.py, _cloud_helpers.py, exceptions/cloud.py and the models of the cloud.
--     A method is a CloudAct on a Web, which holds the client, the replies of the server to come and the
--     requests so far. HMAC, MD5 and the text of JSON are the parameter Packages.
--   Cli: src/ttlock_ble/cli.py: the key cache, the choice of a key, the cloud runs, and in Cli/Runs the runs
--     against a lock, which connect, call one method and disconnect; what typer prints is left out.
--   DumpOperationLog: scripts/dump_operation_log.py: the choice of a key, the text of the log and the run.
--   Examples: tests, and the theorems below applied to concrete values; Examples/Commands for the
--     client's commands, Examples/Pages for pages of the operation log, Examples/Connection for the link
--     and its lifecycle, Examples/Accounts for keys and the cloud, Examples/Store for key
--     strings, the key cache and the runs, Examples/Scan for the search of a device,
--     Examples/Entries for the entries of the lists.
--
-- Numbers are natural numbers with Python's range checks written out (to_bytes, make_byte); where the
-- source can go below zero, the type is the ℤ of Text. Text is ASCII. Slices are Python's.
--
-- Fuel. drain runs a round for each byte of the buffer and one more: every round that goes on shortens
-- the buffer. chunks_of has a round for each byte, read_records for each byte of the page. log_rounds
-- has one round more than there are turns, since an exchange without a turn hears no reply;
-- page_rounds likewise has one more than there are replies. Numbers are printed in one round for each
-- unit, and every round divides by ten or more.
--
-- Not modelled: the file of the cloud's install identifier, the arguments and the output of the
-- command line, and the scanner of bleak itself, which are I/O of other packages; the wake-up read
-- of the battery, whose outcome is ignored; logging; the messages of exceptions. The command lock
-- is not modelled either: an Act is one whole command.
pub mod Base
pub mod Outcome
pub mod Crypto
pub mod Frame
pub mod Reassembler
pub mod Text
pub mod DateTime
pub mod Json
pub mod Encoding
pub mod Opcodes
pub mod Commands
pub mod Models
pub mod Transport
pub mod KeepAlive
pub mod Client
pub mod Cloud
pub mod Cli
pub mod DumpOperationLog
pub mod Examples
