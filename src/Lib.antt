-- ===== src/Lib.antt =====
-- A model of node-red-contrib-eelectron-knxip, a KNX/IP client for Node-RED, and what it satisfies.
--
-- The program talks to a KNX/IP gateway. A flow's telegram becomes a cEMI frame (core/cemi.ts), which a
-- TUNNELLING_REQUEST (core/bodies) carries in a KNX/IP frame (core/knxipFrame.ts) over a UDP or TCP
-- transport (io). The tunnel client (io/tunnel.ts) keeps the connection: it opens and closes the channel,
-- numbers and repeats requests, acknowledges and orders what comes in, and reconnects. All paths are
-- below src/ of the repository.
--
-- Base: byte buffers, thrown errors as values (Result), Boolean tests, bit operators. A Buffer is a list of
--   bytes; reading out of range gives 0, and each read stands behind the length test of the source.
--   RoundTrip and PrefixRoundTrip are what it means that a writer and a parser agree at a value.
-- Core.Text: strings as lists of character codes; decimal printing, split and parseInt, which the
--   addresses use.
-- Core.Address: core/address.ts. of_text is coerce on strings, of_number on numbers.
-- Core.Tpci, Core.Apci, Core.Cemi: core/tpci.ts, core/apci.ts, core/cemi.ts, one function for each of theirs
--   (fromKnx is from_knx, toKnx is to_knx, calculatedLength is calculated_length). A parser takes the
--   bytes from its offset on.
-- Core.Telegram: defaultTpci of core/telegram.ts. Core.GaMatcher: core/gaMatcher.ts; a closure is what it holds.
-- Core.Hpai, Core.Cri, Core.Header, Core.Bodies: core/hpai.ts, core/cri.ts, core/knxipHeader.ts and the
--   sixteen bodies of core/bodies, a module for each.
-- Core.Frame: core/knxipFrame.ts with the service types of core/serviceTypes.ts; KnxipBody is the union of
--   the bodies.
-- Io.TcpTransport: io/tcpTransport.ts. _onData is on_data, one pass of its loop is pass. The loop has as
--   much fuel as the buffer has bytes, and each pass takes at least one away.
-- Io.UdpTransport: io/udpTransport.ts, its listener of datagrams as on_message. Io.Discovery: io/discovery.ts, the
--   handlers of its socket and of its timeout.
-- Io.Tunnel: io/tunnel.ts. A method is a function from the client to the client and the actions that it
--   takes, in order; what stands behind an await is a function of its own, run when the promise settles.
--   Io.Tunnel.Events puts all of them together: any of them may run at any time, which allows more
--   histories than the program has, so an invariant of all of them is one of the program. The modules
--   Pending, Lost, Inbound, Lifecycle, Sending, Heartbeat and Groups follow the sections of the source.
-- Secure: secure/crypto.ts, secure/keys.ts, secure/handshake.ts and secure/wrapper.ts. The ciphers, the hash and
--   the key agreement of node:crypto are the parameter NodeCrypto; IsCipher says what the proofs need of
--   it. Secure.Wrapper.Opened is about what decryption accepts.
-- Io.SecureSession: io/secureSession.ts, in the manner of Io.Tunnel. Sending, Opening, Inbound and Closing hold
--   the methods, Events puts them together, and the other modules below it prove.
-- Runtime.BusMonitor: runtime/busMonitor.ts. Nodes.RateLimit, Nodes.StateStore: nodes/rate-limit/rateLimit.ts and
--   nodes/state-store/stateStore.ts, the 'input' handler as on_input. Nodes.Watchdog: nodes/watchdog/watchdog.ts,
--   the listener as on_cemi and the timer as on_check.
-- Dpt: the codecs of dpt/dpt1.ts, dpt2.ts and so on, each a record of its two functions. Dpt.Numbers, Dpt.Flags,
--   Dpt.Times and Dpt.Colours hold them, and Dpt.Lossless says what a codec promises,
--   and Dpt.Delivery puts a codec in front of the tunnel client. A number is an integer there, except for times
--   and dates, whose codecs take fractions and NaN too: theirs is a JsNumber.
-- Util.Cron: util/cron.ts. Pieces, Fields, Words and Expressions say how the parts of an expression are written and
--   which numbers they stand for, and that the code reads them so.
-- Examples: concrete inputs.
--
-- Any other number of the source is a natural number; where the source keeps 8 or 16 bits, so do the definitions,
-- and a write that Node.js refuses with a RangeError is an error. A timer and a promise are flags, and the
-- queue that keeps one sendCemi in flight is not modelled, nor are the clock, the log and the sockets.
-- The datapoint types on floating point, texts and 64-bit integers, the registry of the types, the ETS import and the
-- other Node-RED nodes are not modelled.
-- The event loop runs no handler inside another one, and effects on the network have no
-- answer but a later event.
pub mod Base
pub mod Core
pub mod Io
pub mod Runtime
pub mod Nodes
pub mod Secure
pub mod Util
pub mod Examples
pub mod Dpt
