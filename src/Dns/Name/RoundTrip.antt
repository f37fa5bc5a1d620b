-- ===== src/Dns/Name/RoundTrip.antt =====
-- dpdk-code/dns/dns.c: decoding behind encoding of a domain name, and what the decoder accepts.
use dpdk_learning.Base.{
  ℕ, zero, suc, ◌+◌, ◌-◌, ◌%◌, ◌≤◌, ◌<◌, ◌≡◌, ◌∙◌, refl, ap, min, Bool, true, false, ◌&&◌, some,
  List, [], ◌∷◌, ◌++◌, arith, ◌==◌, ==_iff, ltb, leb, Bool-cases, length, length-append,
  append_assoc, inl, inr,
}
use dpdk_learning.Dns.Wire.{done}
use dpdk_learning.Dns.Name.{
  Decoded, prepend, dot, decode_loop, tail, decode_domain_name, put_label, encode_labels,
  encode_domain_name, is_name,
}

abbrev prepend_all : List ℕ → Decoded → Decoded
prepend_all [] d = d
prepend_all (c ∷ cs) d = prepend c (prepend_all cs d)

prepend_all-some :
    (cs name rest : List ℕ)
    → prepend_all cs (done (some (name, rest))) ≡ done (some (cs ++ name, rest))
prepend_all-some [] name rest = refl
prepend_all-some (c ∷ cs) name rest = rw (prepend_all-some cs name rest)

abbrev is_text : List ℕ → Bool
is_text [] = true
is_text (c ∷ cs) = ltb 63 c && ltb c 256 && is_text cs

is_text-snoc :
    (cs : List ℕ) (c : ℕ)
    → is_text cs ≡ true
    → ltb 63 c && ltb c 256 ≡ true
    → is_text (cs ++ (c ∷ [])) ≡ true
is_text-snoc [] c h k = ground arith
is_text-snoc (d ∷ cs) c h k = ground (arith, is_text-snoc cs c)

-- The loop copies the characters of a label.
decode_loop-text :
    (label xs : List ℕ) (k : ℕ)
    → is_text label ≡ true
    → length label ≤ k
    → decode_loop k (label ++ xs) ≡ prepend_all label (decode_loop (k - length label) xs)
unfolding decode_loop
decode_loop-text [] xs k h fuel = ap (λ n. decode_loop n xs) (omega arith)
decode_loop-text (c ∷ label) xs zero h fuel = absurd (omega arith)
decode_loop-text (c ∷ label) xs (suc k) h fuel =
    let e : suc k - suc (length label) ≡ k - length label = omega arith in
    ground (arith, e, decode_loop-text label xs k)

-- The length byte of the next label.
record Labelled (bytes : List ℕ) : Type 0 where
  len : ℕ
  rest : List ℕ
  split : bytes ≡ len ∷ rest
  pos : 1 ≤ len
  small : len ≤ 63

module _ (label : List ℕ) (c : ℕ) (rest : List ℕ) where
  encode_labels-dot :
      (c == dot) ≡ true → encode_labels label (c ∷ rest) ≡ put_label label ++ encode_labels [] rest
  unfolding encode_labels
  encode_labels-dot e = rw (e, encode_labels)

  encode_labels-char :
      (c == dot) ≡ false → encode_labels label (c ∷ rest) ≡ encode_labels (label ++ (c ∷ [])) rest
  unfolding encode_labels
  encode_labels-char e = rw (e, encode_labels)

encode_labels-Labelled :
    (label rest : List ℕ) → is_name (length label) rest ≡ true → Labelled (encode_labels label rest)
unfolding encode_labels
encode_labels-Labelled label [] h = record {
  len = length label % 256;
  rest = label ++ (0 ∷ []);
  split = refl;
  pos = ground arith;
  small = ground arith;
}
encode_labels-Labelled label (c ∷ rest) h = elim (Bool-cases (c == dot)) [
  | inl e ↦ rw (encode_labels-dot label c rest e) (record {
    len = length label % 256;
    rest = label ++ encode_labels [] rest;
    split = refl;
    pos = ground arith;
    small = ground arith;
  })
  | inr e ↦ rw (encode_labels-char label c rest e) (
      encode_labels-Labelled (label ++ (c ∷ [])) rest
        (ground (arith, length-append label (c ∷ []))))
]

-- A label, and the length byte that stands for the dot behind it.
decode_loop-label :
    (label bytes name tl : List ℕ) (k : ℕ)
    → is_text label ≡ true
    → length label < k
    → Labelled bytes
    → decode_loop (k - length label - 1) (tail bytes ++ tl) ≡ done (some (name, tl))
    → decode_loop k (label ++ (bytes ++ tl)) ≡ done (some (label ++ (dot ∷ name), tl))
unfolding decode_loop
decode_loop-label label bytes name tl k ht fuel next ih =
    let j = k - length label - 1 in
    let m : k - length label ≡ suc j = omega arith in
    let ih' : decode_loop j (next.rest ++ tl) ≡ done (some (name, tl)) = rw next.split at ih in
    rw (decode_loop-text label (bytes ++ tl) k ht (omega arith), m, next.split)
      (rw (not_zero next, not_big next, ih') (prepend_all-some label (dot ∷ name) tl))
  where
    not_zero : {b : List ℕ} (n : Labelled b) → (n.len == 0) ≡ false
    not_zero n = ground (arith, n.pos)

    not_big : {b : List ℕ} (n : Labelled b) → leb n.len 63 ≡ true
    not_big n = ground (arith, n.small)

decode_loop-encode_labels :
    (rest label tl : List ℕ) (k : ℕ)
    → is_text label ≡ true
    → is_name (length label) rest ≡ true
    → length label + length rest < k
    → decode_loop k (tail (encode_labels label rest) ++ tl) ≡ done (some (label ++ rest, tl))
unfolding encode_labels decode_loop
decode_loop-encode_labels [] label tl k ht hn fuel =
    let e : k - length label ≡ suc (k - length label - 1) = omega arith in
    rw (append_assoc, decode_loop-text label (0 ∷ tl) k ht (omega arith), e)
      (prepend_all-some label [] tl)
decode_loop-encode_labels (c ∷ rest) label tl k ht hn fuel = elim (Bool-cases (c == dot)) [
  | inl e ↦
      let hr : is_name 0 rest ≡ true = ground arith in
      let ih = decode_loop-encode_labels rest [] tl (k - length label - 1) refl hr (omega arith) in
      rw (encode_labels-dot label c rest e, append_assoc, (==_iff c dot).0 e)
        (decode_loop-label label (encode_labels [] rest) rest tl k ht (omega arith)
          (encode_labels-Labelled [] rest hr) ih)
  | inr e ↦ rw (encode_labels-char label c rest e) (
      decode_loop-encode_labels rest (label ++ (c ∷ [])) tl k
        (ground (arith, is_text-snoc label c ht)) (ground (arith, length-append label (c ∷ [])))
        (ground (arith, length-append label (c ∷ [])))
      ∙ ap (λ l. done (some (l, tl))) (append_assoc label (c ∷ []) rest))
]

tail-append : (bytes tl : List ℕ) → Labelled bytes → tail (bytes ++ tl) ≡ tail bytes ++ tl
tail-append bytes tl next = rw next.split

-- A name whose labels have 1 to 63 characters, each a byte above 63, is decoded from its encoding,
-- whatever follows it in the packet, and the cursor stops behind it; `len` and the buffer of 256
-- characters have to cover the encoding.
pub decode_domain_name-encode_domain_name :
    (domain tl : List ℕ) (len : ℕ)
    → is_name 0 domain ≡ true
    → length domain + 2 ≤ min 256 len
    → decode_domain_name (encode_domain_name domain ++ tl) len ≡ done (some (domain, tl))
unfolding decode_domain_name encode_domain_name
decode_domain_name-encode_domain_name domain tl len hn fits =
    rw (tail-append (encode_labels [] domain) tl (encode_labels-Labelled [] domain hn))
      (decode_loop-encode_labels domain [] tl (min 256 len - 1) refl hn (omega arith))
