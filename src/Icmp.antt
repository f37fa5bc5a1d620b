-- ===== src/Icmp.antt =====
-- dpdk-code/04_icmp/icmp.c: the responder to ARP, ICMP and UDP.
pub mod Checksum
pub mod Responder
pub mod Tests
