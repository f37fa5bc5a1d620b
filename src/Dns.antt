-- ===== src/Dns.antt =====
-- dpdk-code/dns/dns.h and dns.c: the messages of the DNS responder, its decoder, its resolver and
-- its encoder. A pointer into the packet is the list of the bytes from there to the end of the
-- packet, and a function that writes through `*buffer` returns the bytes that it writes. A domain
-- name, a C string, is the list of its bytes without the closing zero. `rte_malloc` and `strdup`
-- are taken to succeed, as the code takes them to.
pub mod Wire
pub mod Header
pub mod Name
pub mod Query
pub mod Resolve
pub mod Response
pub mod Server
pub mod Tests
pub mod ServerTests
