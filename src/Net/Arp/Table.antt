-- ===== src/Net/Arp/Table.antt =====
-- dpdk-code/14_tcp_concurrency/tcp_concurrency.c: the ARP table as a map from addresses.
use dpdk_learning.Base.{
  ℕ, zero, suc, ◌≡◌, refl, Bool, true, false, Option, none, some, List, [], ◌∷◌, ◌==◌, ==_iff,
  if◌then◌else◌, take, length, arith, Option-cases, inl, inr, Bool-cases, ◌⊎◌,
}
use native.Mathlib.Numerals.{add-one}
use dpdk_learning.Net.Arp.{
  ArpEntry, ArpTable, search_mac, ng_get_dst_macaddr, insert_new, ng_arp_entry_insert,
}

abbrev pub no_entry : ℕ → List ArpEntry → Bool
no_entry ip [] = true
no_entry ip (e ∷ es) = if ip == e.ip then false else no_entry ip es

abbrev pub distinct : List ArpEntry → Bool
distinct [] = true
distinct (e ∷ es) = if no_entry e.ip es then distinct es else false

-- The count is the length of the list, and no address stands twice.
pub record IsArpTable (t : ArpTable) : Type 0 where
  pub counted : t.count ≡ length t.entries
  pub unique : distinct t.entries ≡ true

no_entry_of_search :
    (es : List ArpEntry) (n ip : ℕ)
    → n ≡ length es
    → search_mac n es ip ≡ none
    → no_entry ip es ≡ true
unfolding search_mac
no_entry_of_search [] n ip e h = refl
no_entry_of_search (x ∷ es) zero ip e h = absurd (omega arith)
no_entry_of_search (x ∷ es) (suc n) ip e h =
    let e' : n ≡ length es = omega arith in ground (arith, no_entry_of_search es n ip e')

insert_new-IsArpTable :
    (b : Bool) (ip : ℕ) (mac : List ℕ) (t : ArpTable)
    → IsArpTable t
    → ng_get_dst_macaddr t ip ≡ none
    → IsArpTable (insert_new b ip mac t).1
unfolding ng_get_dst_macaddr
insert_new-IsArpTable false ip mac t v e = v
insert_new-IsArpTable true ip mac t v e = record {
  counted = omega (arith, v.counted);
  unique = rw (no_entry_of_search t.entries t.count ip v.counted e) v.unique;
}

-- `ng_arp_entry_insert` keeps the count right and the addresses distinct, whether or not memory
-- is to be had.
ng_arp_entry_insert-IsArpTable :
    (allocated : Bool) (ip : ℕ) (mac : List ℕ) (t : ArpTable)
    → IsArpTable t
    → IsArpTable (ng_arp_entry_insert allocated ip mac t).1
unfolding ng_arp_entry_insert
ng_arp_entry_insert-IsArpTable allocated ip mac t v =
    elim (Option-cases (ng_get_dst_macaddr t ip)) [
      | inr (hw, e) ↦ rw e v
      | inl e ↦ rw e (insert_new-IsArpTable allocated ip mac t v e)
    ]

abbrev pub else_mac : Option (List ℕ) → List ℕ → List ℕ
else_mac none mac = mac
else_mac (some hw) mac = hw

-- After `ng_arp_entry_insert` with memory to be had, the address inserted is looked up as the entry
-- that it had before, or else as the first six bytes of the new one; every other address is looked
-- up as before.
pub ng_get_dst_macaddr-insert :
    (ip j : ℕ) (mac : List ℕ) (t : ArpTable)
    → ng_get_dst_macaddr (ng_arp_entry_insert true ip mac t).1 j ≡ (
        if j == ip
        then some (else_mac (ng_get_dst_macaddr t ip) (take 6 mac))
        else ng_get_dst_macaddr t j)
unfolding ng_arp_entry_insert ng_get_dst_macaddr search_mac
ng_get_dst_macaddr-insert ip j mac t = elim (Option-cases (search_mac t.count t.entries ip)) [
  | inr (hw, e) ↦ rw e (old hw e (Bool-cases (j == ip)))
  | inl e ↦ rw (e, add-one)
]
  where
    old :
        (hw : List ℕ)
        → search_mac t.count t.entries ip ≡ some hw
        → ((j == ip) ≡ true) ⊎ ((j == ip) ≡ false)
        → search_mac t.count t.entries j
          ≡ (if j == ip then some hw else search_mac t.count t.entries j)
    old hw e (inl b) = rw (b, (==_iff j ip).0 b) e
    old hw e (inr b) = rw b
