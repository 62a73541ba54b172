-- ===== src/Tests.antt =====
-- Tests of the definitions and instances of the theorems at concrete inputs.
mod Quota
mod Mux
mod Text
mod Router
mod Hello
mod Handshake
mod Vless
mod DnsCache
mod Login
mod Packet
mod DnsMessage
mod Socks5
mod Association
mod Reality
mod Endpoint
mod SingleFlight
mod Session
mod Fragment
mod Link
mod SubLimiter
mod Profile
mod Store
mod Dispatch
