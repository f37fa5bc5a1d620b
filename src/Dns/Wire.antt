-- ===== src/Dns/Wire.antt =====
-- dpdk-code/dns/dns.c: the basic memory operations, and dns.h: the data of a message.
use dpdk_learning.Base.{ℕ, ◌+◌, ◌*◌, ◌/◌, ◌%◌, ◌<◌, ◌≡◌, List, [], ◌∷◌, ◌++◌, arith, ap}

-- What a function that reads the packet comes to. `fault` is a read past the end of the packet.
pub data Outcome {ℓ} (A : Type ℓ) : Type ℓ where
  fault : Outcome A
  done : A → Outcome A

infixl 5 ◌>>=◌
abbrev pub ◌>>=◌ {ℓ κ} : {A : Type ℓ} {B : Type κ} → Outcome A → (A → Outcome B) → Outcome B
fault >>= f = fault
done a >>= f = f a

-- The return code of a function: 0 or -1.
pub data Status : Type 0 where
  ok failed : Status

pub record Question : Type 0 where
  pub q_name : List ℕ
  pub q_type : ℕ
  pub q_class : ℕ

-- The union `ResourceData`, tagged by the member that was written last.
pub data ResourceData : Type 0 where
  a_record : List ℕ → ResourceData
  aaaa_record : List ℕ → ResourceData
  txt_record : ℕ → List ℕ → ResourceData

pub record ResourceRecord : Type 0 where
  pub name : List ℕ
  pub rr_type : ℕ
  pub rr_class : ℕ
  pub ttl : ℕ
  pub rd_length : ℕ
  pub rd_data : ResourceData

pub record Message : Type 0 where
  pub id : ℕ
  pub qr : ℕ
  pub opcode : ℕ
  pub aa : ℕ
  pub tc : ℕ
  pub rd : ℕ
  pub ra : ℕ
  pub rcode : ℕ
  pub qd_count : ℕ
  pub an_count : ℕ
  pub ns_count : ℕ
  pub ar_count : ℕ
  pub questions : List Question
  pub answers : List ResourceRecord
  pub authorities : List ResourceRecord
  pub additionals : List ResourceRecord

-- Two bytes in network order, and the rest of the packet.
unfoldable pub get16bits : List ℕ → Outcome (ℕ × List ℕ)
get16bits [] = fault
get16bits (hi ∷ []) = fault
get16bits (hi ∷ lo ∷ rest) = done (hi * 256 + lo, rest)

unfoldable pub put8bits : ℕ → List ℕ
put8bits value = (value % 256) ∷ []

unfoldable pub put16bits : ℕ → List ℕ
put16bits value = (value / 256 % 256) ∷ (value % 256) ∷ []

unfoldable pub put32bits : ℕ → List ℕ
put32bits value =
    (value / 16777216 % 256) ∷ (value / 65536 % 256) ∷ (value / 256 % 256) ∷ (value % 256) ∷ []

-- A 16-bit value that is written is read back.
pub get16bits-put16bits :
    (v : ℕ) (rest : List ℕ) → v < 65536 → get16bits (put16bits v ++ rest) ≡ done (v, rest)
unfolding get16bits put16bits
get16bits-put16bits v rest h = ap (λ n. done (n, rest)) (omega arith)

-- A read of a 16-bit value that was written, and what follows it.
pub get16bits_then {ℓ} :
    (v : ℕ)
    → v < 65536
    → {B : Type ℓ} (rest : List ℕ) (f : ℕ × List ℕ → Outcome B)
    → (get16bits (put16bits v ++ rest) >>= f) ≡ f (v, rest)
get16bits_then v h rest f = rw (get16bits-put16bits v rest h)
