-- ===== src/Net/State.antt =====
-- dpdk-code/14_tcp_concurrency/tcp_concurrency.c: the structs, and the process as one record.
use dpdk_learning.Base.{ℕ, Bool, Option, none, some, List, [], ◌∷◌, ◌==◌, if◌then◌else◌}
use dpdk_learning.Net.Rte.{Fd, Rte}

-- What a call comes to: a fault of the process (a NULL or dangling pointer), `rte_exit`, a wait
-- on a condition variable that no other thread has signalled yet, or a result.
pub data Run {ℓ} (A : Type ℓ) : Type ℓ where
  crash : Run A
  exit : Run A
  wait : Run A
  done : A → Run A

infixl 5 ◌>>=◌
abbrev pub ◌>>=◌ {ℓ κ} : {A : Type ℓ} {B : Type κ} → Run A → (A → Run B) → Run B
crash >>= f = crash
exit >>= f = exit
wait >>= f = wait
done a >>= f = f a

-- `NG_TCP_STATUS`
pub data Status : Type 0 where
  closed listen syn_rcvd syn_sent established : Status
  fin_wait_1 fin_wait_2 closing time_wait : Status
  close_wait last_ack : Status

abbrev pub status_code : Status → ℕ
status_code closed = 0
status_code listen = 1
status_code syn_rcvd = 2
status_code syn_sent = 3
status_code established = 4
status_code fin_wait_1 = 5
status_code fin_wait_2 = 6
status_code closing = 7
status_code time_wait = 8
status_code close_wait = 9
status_code last_ack = 10

abbrev pub status_eq : Status → Status → Bool
status_eq a b = status_code a == status_code b

abbrev pub ipproto_tcp : ℕ
ipproto_tcp = 6

abbrev pub ipproto_udp : ℕ
ipproto_udp = 17

-- `struct ng_tcp_fragment`; `option` is never used, and `cksum` never read.
pub record Fragment : Type 0 where
  pub sport : ℕ
  pub dport : ℕ
  pub seqnum : ℕ
  pub acknum : ℕ
  pub hdrlen_off : ℕ
  pub tcp_flags : ℕ
  pub windows : ℕ
  pub tcp_urp : ℕ
  pub optlen : ℕ
  pub payload : Option (List ℕ)
  pub len : ℕ

-- `struct offload`
pub record Offload : Type 0 where
  pub sip : ℕ
  pub dip : ℕ
  pub sport : ℕ
  pub dport : ℕ
  pub protocol : ℕ
  pub payload : List ℕ
  pub len : ℕ

-- `struct epitem`, without its links: `rdy`, the descriptor, and the event.
pub record EpItem : Type 0 where
  pub rdy : Bool
  pub sockfd : Fd
  pub events : ℕ
  pub ev_fd : Fd

module _ (rte : Rte) where
  open rte use {Ring, Tree}

  -- `struct ng_tcp_stream`; `ptr` is its address.
  pub record Stream : Type 0 where
    pub ptr : ℕ
    pub fd : Fd
    pub dip : ℕ
    pub localmac : List ℕ
    pub dport : ℕ
    pub protocol : ℕ
    pub sport : ℕ
    pub sip : ℕ
    pub snd_nxt : ℕ
    pub rcv_nxt : ℕ
    pub status : Status
    pub sndbuf : Option (Ring Fragment)
    pub rcvbuf : Option (Ring Fragment)

  -- `struct localhost`, a UDP socket.
  pub record Host : Type 0 where
    pub ptr : ℕ
    pub fd : Fd
    pub localip : ℕ
    pub localmac : List ℕ
    pub localport : ℕ
    pub protocol : ℕ
    pub sndbuf : Ring Offload
    pub rcvbuf : Ring Offload

  -- `struct eventpoll`, without its locks. `items` is the memory of the items by address, and
  -- `rdlist` the ready list, first item first.
  pub record EventPoll : Type 0 where
    pub fd : Fd
    pub rbr : Tree
    pub rbcnt : ℕ
    pub rdlist : List ℕ
    pub rdnum : ℕ
    pub items : ℕ → Option EpItem

  -- The globals `lhost`, `tInst->tcb_set`, `tInst->ep`, `fd_table` and `gSrcMac`, and the number of
  -- allocations made so far, which is also the next fresh address.
  pub record Stack : Type 0 where
    pub lhost : List Host
    pub tcb_set : List Stream
    pub ep : Option EventPoll
    pub fd_table : List ℕ
    pub src_mac : List ℕ
    pub clock : ℕ

  -- The stream at an address is overwritten.
  abbrev pub put_stream : Stream → List Stream → List Stream
  put_stream s' [] = []
  put_stream s' (s ∷ ss) = (if s.ptr == s'.ptr then s' else s) ∷ put_stream s' ss

  -- `LL_REMOVE` of the stream at an address.
  abbrev pub remove_stream : ℕ → List Stream → List Stream
  remove_stream p [] = []
  remove_stream p (s ∷ ss) = if s.ptr == p then ss else s ∷ remove_stream p ss

  abbrev pub write_stream : Stream → Stack → Stack
  write_stream s st = record st { tcb_set = put_stream s st.tcb_set }

  -- The status of the stream at an address.
  abbrev pub status_at : ℕ → List Stream → Option Status
  status_at p [] = none
  status_at p (s ∷ ss) = if s.ptr == p then some s.status else status_at p ss
