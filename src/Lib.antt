-- ===== src/Lib.antt =====
-- RXCore, a VLESS proxy server with Reality transport, routing, user quotas and an administration
-- API (target_core), and its desktop client (src-tauri).
--
-- How the parts work together. A connection comes in through an inbound
-- (target_core/src/inbound): Reality handshakes are admitted by accept_reality_bounded, the
-- ClientHello is read by target_core/src/transport/reality.rs, and parse_vless_inbound reads the
-- request behind it. The dispatcher sniffs the server name
-- (target_core/src/dispatcher/sniffer.rs) and asks the router (target_core/src/router/mod.rs) for
-- an outbound. The outbound copies bytes with the loops of target_core/src/transport/mod.rs,
-- which count them against the quota of the user in target_core/src/state.rs, over a connection
-- of its own or a stream of the multiplexer (target_core/src/transport/mux.rs). Names are
-- resolved through the DNS cache (target_core/src/transport/dns_cache.rs). A SOCKS5 client's
-- datagrams go through a tunnel of frames to the server's UDP outbound and their answers back.
-- The administration API is guarded by the limiter and the sessions of target_core/src/auth.rs.
--
-- Which file models which part:
--
-- - Quota: reserve_quota and reserve_udp_datagram, as one attempt and as the loop of attempts.
-- Quota/Threads runs many callers of reserve_quota against one counter, step by atomic step.
-- Quota/Account: the counters of a user, with the checks that read them. Quota/Copy: the one-way
-- loops and the choice between them. A read, a write and what an exchange sees are the data of a
-- round; a run is the list of its rounds.
--
-- - Mux/Frame: frames, write_frame and run_connection_reader. Mux/Writer: run_connection_writer,
-- as a list of events between the turns of its loop. Mux/Stream: the polls of MuxVirtualStream.
-- Mux/Pool: MuxPool with the lease and the return of streams.
--
-- - Router: RouteModeTables::compile, get_host, matches_domain and resolve_route; Router/Match:
-- the matching of domains and addresses.
--
-- - ClientHello: parse_client_hello. Sniffer: parse_sni_from_bytes, where an index out of bounds
-- is the result `panics`.
--
-- - Handshake: the limits of accept_reality_bounded; Handshake/Steps: the connections that run at
-- the same time.
--
-- - Vless: parse_vless_inbound and the header that VlessClientOutbound::handle sends.
--
-- - Reality: accept, verify_client_reality, PrefixedStream and name_matches_pattern of
-- target_core/src/transport/reality.rs. Reality/Records and Reality/Fragments are about the
-- reading of records, Reality/Prefix about the bytes that are handed on, Reality/Verify about
-- whom the server accepts.
--
-- - Socks5: the datagrams of the SOCKS5 inbound (target_core/src/inbound/socks5.rs) and the two
-- functions of target_core/src/transport/mod.rs that wrap them; Socks5/Request: the handshake.
-- UdpTunnel: the frames between the client's tunnel and handle_multiplexed of
-- target_core/src/outbound/udp.rs. Association: the table of associations, with its cleanup in
-- two halves; Association/Locks: the order of its two locks.
--
-- - DnsMessage: parse_dns_response; Endpoint: parse_endpoint, build_dns_query and reject_ipv6_ip
-- (target_core/src/transport/mod.rs). DnsCache: the cache of resolved names; SingleFlight: the
-- lookups that callers share (target_core/src/transport/dns_cache.rs).
--
-- - Dispatch: dispatch_connection (target_core/src/dispatcher/mod.rs) up to the handler, with
-- get_outbound_handler (target_core/src/outbound/mod.rs), on the answer of Router.
--
-- - Login: LoginRateLimiter; Session: the session cookie (target_core/src/auth.rs). SubLimiter:
-- check_sub_rate_limit and get_client_ip (target_core/src/api/mod.rs). Profile: the validation of
-- a RealityProfile (target_core/src/config.rs). Fragment: the upload of
-- target_core/src/outbound/fragment.rs.
--
-- - Packet: the checksums of the desktop client; Link: its reading of links, and Store: the
-- commands on its configurations (src-tauri/src/main.rs).
--
-- - Text: what the program uses of the strings, addresses and UTF-8 of the standard library.
-- Prelude: shared names, lists and numbers, machine words, association lists. Tests: runs and
-- instances at concrete inputs.
--
-- Conventions. A byte is a number; a text is its bytes, and host names and addresses are ASCII.
-- An i64 is an integer with its wrap-around written out; a u16, u32 or u64 keeps its modulus
-- where the code can reach it. A hash map is an association list. A lock is held for one step,
-- and a step of several atomic operations is several steps. Time is counted in seconds. A panic
-- is a result of its own.
--
-- Fuel. A sum of 32 bits is folded in two rounds. The reader of the multiplexer has one unit for
-- each frame, so more units than there are frames are enough. The loops over extensions have one
-- unit for each byte and one more, and each round takes four bytes (a name takes three, a key
-- share four), so the fuel is enough; its end is a result of its own. The server's end of the UDP
-- tunnel has one unit for each byte, and a frame takes four at least; the upload in fragments has
-- one for each byte, and a piece takes one at least. The records of a ClientHello are counted
-- down from the eight that the code reads.
--
-- Parameters. The crates regex and ipnet are the functions of Router.Match.Crates, the crate
-- dns_parser is a function from bytes to packets, the table of allowed users is a function, the
-- cryptography of the crates is Reality.Crypto, Session.Crates and Profile.Crates, and the first
-- key that a hash map gives is a function that gives a key of the map.
--
-- Not modelled: TLS (the vendored rustls) and the making of certificates, dialling and sockets,
-- the other UDP relays, the rest of the configuration, the state of the engine, the HTTP handlers
-- of the administration API, the traffic of the desktop client. The components of the manifest
-- say why.
pub mod Association
pub mod ClientHello
pub mod Dispatch
pub mod DnsCache
pub mod DnsMessage
pub mod Endpoint
pub mod Fragment
pub mod Handshake
pub mod Link
pub mod Login
pub mod Mux
pub mod Packet
pub mod Prelude
pub mod Profile
pub mod Quota
pub mod Reality
pub mod Router
pub mod Session
pub mod SingleFlight
pub mod Sniffer
pub mod Socks5
pub mod Store
pub mod SubLimiter
pub mod Tests
pub mod Text
pub mod UdpTunnel
pub mod Vless
