-- ===== src/Net.antt =====
-- dpdk-code/14_tcp_concurrency/tcp_concurrency.c: the user-space TCP/UDP stack with its socket
-- calls and its event poll. The state of the process is the record `Stack` of `Net/State.antt`.
pub mod Rte
pub mod State
pub mod Returns
pub mod FdTable
pub mod Arp
pub mod Epoll
pub mod Tcp
pub mod Frame
pub mod Streams
pub mod TcpProcess
pub mod Socket
pub mod SocketData
pub mod Apps
pub mod Main
pub mod Output
pub mod Tests
pub mod SocketTests
pub mod OutputTests
pub mod EpollTests
pub mod AppTests
pub mod MainTests
pub mod TcpProcessTests
