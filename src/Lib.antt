-- ===== src/Lib.antt =====
-- A model of http-quik, a client that sends HTTP requests under the identity of a browser, and what
-- holds of it.
--
-- One request runs through the parts as follows. `Client::execute_with_redirects` (src/client/pool.rs)
-- takes a method and a URL. For each hop it computes the keys of the connection pool and of the Alt-Svc
-- cache (Keys), asks the cache whether the origin speaks HTTP/3 (AltSvc), computes the referer (Redirect),
-- and takes or opens a connection: through a proxy or directly over TCP (Proxy), with a TLS connector
-- made from the identity profile (Tls), the ALPS payload (Connector) and an HTTP/2 builder (Handshake).
-- It writes the headers of the identity (Request), sends, keeps what the answer advertises (AltSvc),
-- and on a redirect answer makes the next hop (Redirect).
--
-- Which file models what:
--   Profile, Profile/Draw, Profile/Chrome134, Chrome147, Chrome148: src/profile. The draws of the GREASE
--     brand and the operating system of the build are arguments.
--   Request: src/client/request.rs, `inject_chrome_headers` in its five parts.
--   Redirect: src/client/pool.rs, lines 184 to 190, 248 to 255 and 467 to 499: the variables that live
--     from hop to hop are the record Hop, and `redirect` is the answer's part of the loop's body.
--   Keys: src/client/pool.rs, lines 198 to 220.
--   AltSvc: src/client/pool.rs, `AltSvcCache` and `store_alt_svc`.
--   Proxy: src/client/proxy.rs, its parser and both handshakes.
--   Tls: src/tls/connector.rs, `build_connector`; Tls/Certificates: its `BrotliCompressor`. Handshake: src/http2/handshake.rs.
--   Connector: src/client/connector.rs, `connect` (here `open_connection`), what it calls, and
--     `QuikConnection::send` (here `send`).
--   Quic: src/client/quic.rs, `configure_chrome_quic_transport` and `QuicSession::send`.
--   Driver: src/client/quic.rs, what `run_quic_driver` keeps of its requests, and src/client/h3.rs.
--     Driver/Loop: the loop of `run_quic_driver`, where the branch that `select!` takes is an input.
--     Driver/Tally, Settling, Accounting, Commands and Promise count what it owes, Driver/Early is about
--     its handshake, Driver/Measures and Ending about its fuel, Driver/History, Assembly, Answers,
--     Status, Outcome and Brought about what it makes of the events. Streams: the map of its requests.
--   Client: src/client/pool.rs, the client, its slots and `dial`. Client/Acquire: the loop that
--     takes a connection, and the sending with its fallback. Client/Execute:
--     `execute_with_redirects` whole, in the order of the source, `store_cookies`, `store_hints`,
--     `get` and `post`; Client/Sent is about its requests, which Request/Contexts compares with the
--     Fetch standard, and Client/Rounds and Client/Chain about its redirects. Client/Calls: such
--     calls one after the other. Client/Builder: how a client is made. Client/Race: the loop that
--     takes a connection and both fallbacks once more, up to the answer of a request that is sent
--     again, as the tasks of several calls to one origin, which take turns at their awaits, share
--     the locks of its two slots, and may be dropped. Race/Guarded, Moves and Serial keep the books
--     of the locks, Race/Endings and Progress are about who can go on, and Race/Shown, Alone, Dials,
--     Peeking, Acquiring, Reacquiring, Serving, Hop and Exchange compare its tasks with
--     Client/Acquire and Client/Execute.
--   Response: src/client/response.rs, its data. Response/Body: `bytes`, `json` and `text`.
--   Failure: src/error.rs. Request/Units: the unit tests of src/client/request.rs.
--   Utf8: `String::from_utf8` of the language's library, for `text`.
--   Calls: the calls by which Tls and Handshake configure other crates.
--   Http, Url, Quiche, Externals: the crates `http` and `url`, the connections of the crate `quiche`, and
--     the rest of the outside, as records of operations that the definitions take; HttpLaws, UrlLaws,
--     QuicheLaws and ExternalLaws are what their documentation says. The Sample beside each is a
--     concrete one.
--   Lock, Effect, Base: a lock that may be poisoned, calls that change a world and may fail, and what
--     the parts share.
--
-- A call changes a world and answers a value or a failure: an error of the crate, a panic, or fuel that
-- ran out. Texts are strings, bytes are numbers, and a u16 or u32 is a natural number whose bound
-- stands among the hypotheses where it matters; the casts to u8 are written out. The loop that awaits
-- the head of a proxy's answer has fuel 4097: each round that goes on has read a byte at least into a
-- buffer of 4096. The loop that takes a connection has fuel 2: after a dead connection its slot is empty,
-- and the next round dials and ends. The loop over the hops has the ten rounds of the source.
-- The loops of the driver take fuel as arguments: each turn sends a packet, is told of an event, or reads
-- bytes, of which a connection has finitely many, and fuel above those numbers is enough. So do the loops
-- over a body and over a compressed certificate: more fuel than there are pieces is enough.
--
-- In Client and its children a client runs one call at a time: its locks can be poisoned, but no other
-- task changes what they guard between two steps. Client/Race is where tasks interleave. Other tasks,
-- such as the drivers of connections, are part of the world there, which answers each call as it likes;
-- that an answer may never come is not modelled. In Driver a channel is a number, and what was sent on
-- it is kept; that a task may have gone away that waited for it changes nothing, as in the source.
--
-- Not modelled: the log, and the hashes JA3 and JA4, which describe what the TLS library makes of the
-- calls.
pub mod Base
pub mod Failure
pub mod Effect
pub mod Http
pub mod Profile
pub mod Request
pub mod Url
pub mod Utf8
pub mod Redirect
pub mod Keys
pub mod Lock
pub mod Streams
pub mod Quiche
pub mod Driver
pub mod AltSvc
pub mod Externals
pub mod Proxy
pub mod Calls
pub mod Tls
pub mod Handshake
pub mod Response
pub mod Quic
pub mod Client
pub mod Connector
