-- ===== src/Ddos.antt =====
-- dpdk-code/14_tcp_concurrency/tcp_concurrency.c: the detector of attacks, count_bit and ddos_detect.
pub mod CountBit
pub mod Detect
pub mod Tests
