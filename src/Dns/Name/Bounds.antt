-- ===== src/Dns/Name/Bounds.antt =====
-- dpdk-code/dns/dns.c: what decode_domain_name reads and writes, for any packet, and what it does
-- to characters below 64.
use dpdk_learning.Base.{
  ℕ, zero, suc, ◌+◌, ◌-◌, ◌≤◌, ◌<◌, ◌≡◌, ◌∙◌, refl, ap, min, Bool, true, false, ◌&&◌, not, none,
  some, List, [], ◌∷◌, ◌++◌, arith, ◌==◌, ltb, leb, if◌then◌else◌, Bool-cases, length, append_assoc,
  append-nil, inl, inr, map,
}
use dpdk_learning.Dns.Wire.{fault, done}
use dpdk_learning.Dns.Name.{
  Decoded, prepend, dot, decode_loop, decode_domain_name, put_label, encode_labels,
  encode_domain_name,
}

-- A decoded name with its rest, measured against `n` bytes and `k` rounds.
abbrev Measured : ℕ → ℕ → Decoded → Type 0
Measured n k fault = n < k
Measured n k (done none) = Unit
Measured n k (done (some (name, rest))) = (length name + 1 + length rest ≡ n) × (length name < k)

Measured-prepend :
    (n k c : ℕ) (d : Decoded) → Measured n k d → Measured (suc n) (suc k) (prepend c d)
Measured-prepend n k c fault h = omega arith
Measured-prepend n k c (done none) h = tt
Measured-prepend n k c (done (some (name, rest))) h = omega arith

decode_loop-Measured : (k : ℕ) (bytes : List ℕ) → Measured (length bytes) k (decode_loop k bytes)
unfolding decode_loop
decode_loop-Measured zero bytes = tt
decode_loop-Measured (suc k) [] = omega arith
decode_loop-Measured (suc k) (c ∷ rest) = elim (Bool-cases (c == 0)) [
  | inl e ↦ rw e (omega arith)
  | inr e ↦
      rw e (Measured-prepend (length rest) k _ (decode_loop k rest) (decode_loop-Measured k rest))
]

-- What `decode_domain_name` comes to on a packet of `n` bytes: it reads past the end only of a
-- packet shorter than the smaller of 256 and `len`; a name that it returns fits the buffer of 256
-- characters with its closing zero, and was read from one byte more than that.
abbrev pub InBounds : ℕ → ℕ → Decoded → Type 0
InBounds n len fault = n < min 256 len
InBounds n len (done none) = Unit
InBounds n len (done (some (name, rest))) =
    (length name + 2 + length rest ≡ n) × (length name + 2 ≤ min 256 len)

InBounds-Measured :
    (b : ℕ) (bytes : List ℕ) (len : ℕ) (d : Decoded)
    → Measured (length bytes) (min 256 len - 1) d
    → InBounds (suc (length bytes)) len d
InBounds-Measured b bytes len fault h = omega arith
InBounds-Measured b bytes len (done none) h = tt
InBounds-Measured b bytes len (done (some (name, rest))) h = omega arith

-- Every call of `decode_domain_name` on a packet that is not empty stays within the bounds of
-- `InBounds`.
pub decode_domain_name-InBounds :
    (b : ℕ) (bytes : List ℕ) (len : ℕ)
    → InBounds (length (b ∷ bytes)) len (decode_domain_name (b ∷ bytes) len)
unfolding decode_domain_name
decode_domain_name-InBounds b bytes len =
    InBounds-Measured b bytes len (decode_loop (min 256 len - 1) bytes)
      (decode_loop-Measured (min 256 len - 1) bytes)

-- A label of bytes other than zero and dot.
abbrev pub is_label : List ℕ → Bool
is_label [] = true
is_label (c ∷ cs) = ltb 0 c && ltb c 256 && not (c == dot) && is_label cs

-- What comes back for a character of a label.
abbrev pub dotted : ℕ → ℕ
dotted c = if leb c 63 then dot else c

decode_loop-label_end :
    (label tl : List ℕ) (k : ℕ)
    → is_label label ≡ true
    → length label < k
    → decode_loop k (label ++ (0 ∷ tl)) ≡ done (some (map dotted label, tl))
unfolding decode_loop
decode_loop-label_end label tl zero h fuel = absurd (omega arith)
decode_loop-label_end [] tl (suc k) h fuel = refl
decode_loop-label_end (c ∷ label) tl (suc k) h fuel =
    let e : (c == 0) ≡ false = ground arith in
    rw (e, decode_loop-label_end label tl k (ground arith) (omega arith))

encode_labels-label :
    (pre label : List ℕ)
    → is_label label ≡ true
    → encode_labels pre label ≡ put_label (pre ++ label) ++ (0 ∷ [])
unfolding encode_labels
encode_labels-label pre [] h = rw (append-nil pre)
encode_labels-label pre (c ∷ label) h =
    let e : (c == dot) ≡ false = ground arith in
    rw (e, encode_labels)
      (encode_labels-label (pre ++ (c ∷ [])) label (ground arith)
        ∙ ap (λ l. put_label l ++ (0 ∷ [])) (append_assoc pre (c ∷ []) label))

-- Of a name of one label, decoding behind encoding returns every character up to 63 as a dot and
-- every other character unchanged.
pub decode_domain_name-encode_label :
    (label tl : List ℕ) (len : ℕ)
    → is_label label ≡ true
    → length label + 2 ≤ min 256 len
    → decode_domain_name (encode_domain_name label ++ tl) len ≡ done (some (map dotted label, tl))
unfolding decode_domain_name encode_domain_name
decode_domain_name-encode_label label tl len h fits =
    rw (encode_labels-label [] label h, append_assoc)
      (decode_loop-label_end label tl (min 256 len - 1) h (omega arith))
