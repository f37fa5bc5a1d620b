-- ===== src/Dns/Name.antt =====
-- dpdk-code/dns/dns.c: decode_domain_name and encode_domain_name.
pub mod RoundTrip
pub mod Bounds
use dpdk_learning.Base.{
  ℕ, zero, suc, ◌+◌, ◌-◌, ◌%◌, ◌≤◌, ◌<◌, ◌≡◌, ◌≢◌, ◌∙◌, refl, ap, min, Bool, true, false, ◌&&◌,
  Option, none, some, List, [], ◌∷◌, ◌++◌, arith, ◌==◌, ltb, leb, if◌then◌else◌, Bool-cases, length,
  length-append, append_assoc, append-nil, inl, inr,
}
use dpdk_learning.Dns.Wire.{Outcome, fault, done, ◌>>=◌}

-- What `decode_domain_name` comes to: NULL, with the cursor unmoved, or a name and the cursor
-- behind it.
abbrev pub Decoded : Type 0
Decoded = Outcome (Option (List ℕ × List ℕ))

abbrev pub prepend : ℕ → Decoded → Decoded
prepend c fault = fault
prepend c (done none) = done none
prepend c (done (some (name, rest))) = done (some (c ∷ name, rest))

abbrev pub dot : ℕ
dot = b'.'

-- The loop of `decode_domain_name` over the bytes from index `i` on; the first argument is the
-- number of rounds left.
unfoldable pub decode_loop : ℕ → List ℕ → Decoded
decode_loop zero bytes = done none
decode_loop (suc rounds) [] = fault
decode_loop (suc rounds) (c ∷ rest) =
    let more = prepend (if leb c 63 then dot else c) (decode_loop rounds rest) in
    if c == 0 then done (some ([], rest)) else more

abbrev pub tail : List ℕ → List ℕ
tail [] = []
tail (x ∷ xs) = xs

-- The loop starts at index 1 and ends below `MIN(256, len)`.
unfoldable pub decode_domain_name : List ℕ → ℕ → Decoded
unfolding decode_loop
decode_domain_name buf len = decode_loop (min 256 len - 1) (tail buf)

-- One label: its length byte, and its text.
abbrev pub put_label : List ℕ → List ℕ
put_label label = (length label % 256) ∷ label

-- The `strchr` loop of `encode_domain_name`: `label` is the text from `beg` up to the character
-- that `strchr` has reached. At a dot the label is written and `beg` moves behind it; at the end
-- of the name the last label and the closing zero are written.
unfoldable pub encode_labels : List ℕ → List ℕ → List ℕ
encode_labels label [] = put_label label ++ (0 ∷ [])
encode_labels label (c ∷ rest) = elim (c == dot) [
  | true ↦ put_label label ++ encode_labels [] rest
  | false ↦ encode_labels (label ++ (c ∷ [])) rest
]

unfoldable pub encode_domain_name : List ℕ → List ℕ
unfolding encode_labels
encode_domain_name domain = encode_labels [] domain

-- A name that the wire format of this code can carry: every label has 1 to 63 characters, and
-- every character is a byte above 63. The number is the length of the label so far.
abbrev pub is_name : ℕ → List ℕ → Bool
is_name n [] = leb 1 n && leb n 63
is_name n (c ∷ rest) =
    if c == dot
    then leb 1 n && leb n 63 && is_name 0 rest
    else ltb 63 c && ltb c 256 && is_name (n + 1) rest
