-- ===== src/Lib.antt =====
-- The DNS responder (dpdk-code/dns), the user-space TCP/UDP stack with its detector of attacks
-- (dpdk-code/14_tcp_concurrency), the ARP and ICMP responder (dpdk-code/04_icmp) and the load
-- balancer (dpdk-code/flowtable_plugin) of dpdk-learning.
--
-- The parts and how they interact:
--
-- Base: the shared names, the Boolean tests and the case splits (Base/Tests), lists (Base/Lists),
-- bit masks as fields (Base/Bits), and 32-bit differences (Base/Int).
--
-- Dns: dpdk-code/dns/dns.h and dns.c. Dns/Wire has the structs Question, ResourceRecord and
-- Message and the byte primitives get16bits, put8bits, put16bits and put32bits; Dns/Header
-- decode_header and encode_header; Dns/Name decode_domain_name and encode_domain_name; Dns/Query
-- decode_msg; Dns/Response encode_resource_records and encode_msg; Dns/Resolve get_A_Record,
-- get_AAAA_Record, get_TXT_Record and resolve_query. A server runs decode_msg, resolve_query and
-- encode_msg in this order on one Message. A packet is the list of its bytes, and a cursor into it
-- the list of those that are left; a read past the end is `fault`. A linked list of questions or
-- records is a List in the order of the links. Dns/Server is the server around them, dpdk-
-- code/dns/dpdk_kni.c: `serve_frame` is the round of main on a received frame, with
-- create_eth_ip_udp_pkt and do_send_udp; Dns/Server/Reply and Dns/Server/Answered follow the frame
-- that goes back.
--
-- Net: dpdk-code/14_tcp_concurrency/tcp_concurrency.c. Net/State has the structs (Fragment,
-- Offload, EpItem, Stream for ng_tcp_stream, Host for localhost, EventPoll) and the record Stack
-- of the globals: lhost, the table tcb_set, its event poll, fd_table, gSrcMac, and a clock that
-- counts the calls of an allocator and names the next fresh address. Net/FdTable has
-- get_fd_frombitmap and set_fd_frombitmap; Net/Arp ng_get_dst_macaddr and ng_arp_entry_insert;
-- Net/Epoll epoll_event_callback, nepoll_create, nepoll_ctl and nepoll_wait; Net/Tcp
-- ng_tcp_stream_search, ng_tcp_stream_create, ng_tcp_handle_listen and ng_tcp_handle_syn_rcvd;
-- Net/TcpProcess the handlers of an open connection and ng_tcp_process; Net/Socket nsocket, nbind,
-- nlisten, naccept and nclose; Net/SocketData nsend, nrecv, nsendto and nrecvfrom. Packets enter
-- by ng_tcp_process, which changes the table of streams and calls epoll_event_callback; an
-- application calls the socket functions on the same Stack.
--
-- Net/Frame has the frames as lists of bytes: ng_encode_tcp_apppkt, ng_tcp_pkt,
-- ng_encode_udp_apppkt, ng_udp_pkt, ng_encode_arp_pkt and ng_send_arp, and the headers of a
-- received frame (read_ip, read_tcp). Net/Output has ng_tcp_out, udp_out, udp_process, one round
-- of pkt_process on a burst, and arp_request_timer_cb, on the record World of the packet thread:
-- the Stack, the ARP table, the ring `out` and the frames that were passed to KNI. Net/Main is the
-- process around it: the rounds of main, which gives the received packets to the detector and to
-- the ring `in`, the frames of the ring `out` to the port, and looks at the timer, and the rounds
-- of the packet thread on the ring `in`; Net/Main/Order has their interleavings, a round being one
-- step. Net/Output/Delivery follows a payload from nsend through a frame into the receive buffer
-- of the peer. Net/Apps has the applications, udp_server_entry and tcp_server_entry, as rounds
-- over the socket calls; Net/Apps/Reply follows a segment through ng_tcp_process and the event
-- poll to the server's answer, Net/Apps/UdpOverrun a datagram through udp_process to
-- udp_server_entry, Net/Apps/HangUp the end of a connection, and Net/TcpProcess/Runs any sequence
-- of segments through ng_tcp_process. Net/FdTable/Refine has the descriptor table as a set of
-- numbers, and Net/Epoll/Reach the sequences of calls on one event poll.
--
-- Ddos: the end of the same file. Ddos/CountBit has count_bit, Ddos/Detect ddos_entropy and
-- ddos_detect. `double` with its operations is a parameter.
--
-- Icmp: dpdk-code/04_icmp/icmp.c. Icmp/Checksum has ng_checksum, and Icmp/Responder the frames
-- that answer ARP, ICMP and UDP, and `answer_frame`, the round of the loop of main on a received
-- frame. It shares the encoders of Net/Frame, and Icmp/Responder/Resolution puts it at the other
-- end of the stack's ARP requests.
--
-- LoadBalancer: the node and the command of dpdk-code/flowtable_plugin/flowtable
-- (loadbalancer_node.c, loadbalancer.c). Vectors of VPP are lists, and the interface redirection
-- is a parameter.
--
-- A handler that writes through a pointer to a stream writes the stream of that address back into
-- the table (`write_stream`). A result of type Run is a value, a fault of the process (`crash`),
-- rte_exit (`exit`), or a wait on a condition variable (`wait`), after which the call is made
-- again in a later state. Sequence numbers wrap at 2 ^ 32, ports and counts at 2 ^ 16. What C
-- leaves undefined is a fault: a read past the end of memory, and memory of rte_malloc that is
-- passed to free, as nepoll_ctl does with the item that it deletes.
--
-- What stands outside is the record Rte of Net/Rte: rings with the laws of a bounded queue, one
-- element or a burst at a time, the red-black tree of nty_tree.h with the laws of a map, the
-- outcomes of allocators and random numbers as functions without laws, the byte order, which is
-- its own inverse, and the checksums of DPDK, which have 16 bits. Net/Tests fills it with lists
-- and functions; the other test modules use the same.
--
-- Bounds and fuel: the loops of dns.c run along the bytes of the packet, decode_domain_name for at
-- most min(256, len) - 1 steps as its loop condition says, and decode_questions for as many rounds
-- as the count of the header. get_fd_frombitmap has 1021 rounds, the descriptors from 3 to 1023;
-- ng_get_dst_macaddr runs `count` rounds and nepoll_wait min(maxevents, rdnum), the conditions of
-- their loops. The timer sends 254 requests. None of this is fuel of the model's own. count_bit
-- has as much fuel as its length and one more, and takes eight bytes in each round; the loop of
-- ng_checksum over the carries has as many rounds as its sum, which every round makes smaller.
--
-- Not modelled: printing and freeing of messages, the set-up of ports, KNI and threads, locks and
-- the waking of waiting threads, waits with a time-out, the server without an event poll, which is
-- not compiled, and the rest of the repository (earlier versions of the stack, copies of other
-- projects, the other plugins of VPP and examples of SPDK), which is calls of other systems or
-- repeats the parts above.
pub mod Base
pub mod Ddos
pub mod Dns
pub mod Icmp
pub mod LoadBalancer
pub mod Net
