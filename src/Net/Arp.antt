-- ===== src/Net/Arp.antt =====
-- dpdk-code/14_tcp_concurrency/tcp_concurrency.c: the ARP table, ng_get_dst_macaddr and
-- ng_arp_entry_insert. The table is the value of the doubly linked list, first entry first.
pub mod Table
use dpdk_learning.Base.{
  ℕ, zero, suc, ◌+◌, Bool, true, false, Option, none, some, List, [], ◌∷◌, ◌==◌, if◌then◌else◌,
  take,
}

pub record ArpEntry : Type 0 where
  pub ip : ℕ
  pub hwaddr : List ℕ
  pub entry_type : ℕ

pub record ArpTable : Type 0 where
  pub entries : List ArpEntry
  pub count : ℕ

-- The loop of `ng_get_dst_macaddr`, which stops after `count` entries or at the end of the list.
unfoldable pub search_mac : ℕ → List ArpEntry → ℕ → Option (List ℕ)
search_mac zero es dip = none
search_mac (suc n) [] dip = none
search_mac (suc n) (e ∷ es) dip = if dip == e.ip then some e.hwaddr else search_mac n es dip

unfoldable pub ng_get_dst_macaddr : ArpTable → ℕ → Option (List ℕ)
unfolding search_mac
ng_get_dst_macaddr t dip = search_mac t.count t.entries dip

-- `LL_ADD` puts a new entry in front.
abbrev pub add_entry : ℕ → List ℕ → ArpTable → ArpTable
add_entry ip mac t = record t {
  entries = record { ip = ip; hwaddr = take 6 mac; entry_type = 0 } ∷ t.entries;
  count = t.count + 1;
}

abbrev pub insert_new : Bool → ℕ → List ℕ → ArpTable → ℕ × ArpTable
insert_new true ip mac t = (1, add_entry ip mac t)
insert_new false ip mac t = (1, t)

abbrev pub insert_unless : Option (List ℕ) → Bool → ℕ → List ℕ → ArpTable → ℕ × ArpTable
insert_unless (some hw) allocated ip mac t = (0, t)
insert_unless none allocated ip mac t = insert_new allocated ip mac t

-- The flag says whether `rte_malloc` succeeds. The code returns 1 even where it does not.
unfoldable pub ng_arp_entry_insert : Bool → ℕ → List ℕ → ArpTable → ℕ × ArpTable
unfolding ng_get_dst_macaddr
ng_arp_entry_insert allocated ip mac t = insert_unless (ng_get_dst_macaddr t ip) allocated ip mac t
