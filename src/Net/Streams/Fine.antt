-- ===== src/Net/Streams/Fine.antt =====
-- dpdk-code/14_tcp_concurrency/tcp_concurrency.c: the table of streams as the handlers need it: each
-- stream has its two buffers, and a stream that has received a SYN has a listener.
use dpdk_learning.Base.{
  ℕ, ◌<◌, ◌≤◌, ◌≡◌, ◌⊎◌, refl, sym, Bool, true, false, not, ◌||◌, Option, none, some, List, [], ◌∷◌,
  ◌==◌, All, arith, Bool-cases, inl, inr, subst, some-injective,
}
use dpdk_learning.Net.Rte.{Rte}
use dpdk_learning.Net.State.{
  listen, syn_rcvd, status_eq, Fragment, Stream, put_stream, remove_stream, status_at,
}
use dpdk_learning.Net.Tcp.{first, listens}
use dpdk_learning.Net.Streams.{vacant}

pub All-map {ℓ} :
    {A : Type ℓ} (P Q : A → Type 0) (xs : List A) → ((x : A) → P x → Q x) → All P xs → All Q xs
All-map P Q [] f a = tt
All-map P Q (x ∷ xs) f a = (f x a.0, All-map P Q xs f a.1)

module _ (rte : Rte) where
  abbrev pub HasRing : Option (rte.Ring Fragment) → Type 0
  HasRing none = ⊥
  HasRing (some r) = Unit

  pub ring_of :
      (o : Option (rte.Ring Fragment)) → HasRing o → (r : rte.Ring Fragment) × (o ≡ some r)
  ring_of none h = absurd h
  ring_of (some r) h = (r, refl)

  -- Whether a stream of the table listens on the port.
  abbrev pub has_listener : ℕ → List (Stream rte) → Bool
  has_listener d [] = false
  has_listener d (s ∷ ss) = listens rte d s || has_listener d ss

  abbrev pub is_answered : List (Stream rte) → Stream rte → Bool
  is_answered ss s = not (status_eq s.status syn_rcvd) || has_listener s.dport ss

  -- A stream at an address below `n`, with its buffers, and with a listener in `ss` if it has received
  -- a SYN.
  abbrev pub Fine : ℕ → List (Stream rte) → Stream rte → Type 0
  Fine n ss s = (s.ptr < n) × HasRing s.rcvbuf × HasRing s.sndbuf × (is_answered ss s ≡ true)

  pub Fine-later :
      (n m : ℕ) (ss ss' : List (Stream rte)) (s : Stream rte)
      → n ≤ m
      → (has_listener s.dport ss ≡ true → has_listener s.dport ss' ≡ true)
      → Fine n ss s
      → Fine m ss' s
  Fine-later n m ss ss' s h l (p, r, q, a) =
      (omega (arith, p, h), r, q, later (Bool-cases (status_eq s.status syn_rcvd)))
    where
      later :
          ((status_eq s.status syn_rcvd ≡ true) ⊎ (status_eq s.status syn_rcvd ≡ false))
          → is_answered ss' s ≡ true
      later (inr e) = rw e refl
      later (inl e) = let a' = rw e at a in rw e (l a')

  pub All-put_stream :
      (P : Stream rte → Type 0) (s : Stream rte) (ss : List (Stream rte))
      → P s
      → All P ss
      → All P (put_stream rte s ss)
  All-put_stream P s [] p a = tt
  All-put_stream P s (x ∷ ss) p a = elim (Bool-cases (x.ptr == s.ptr)) [
    | inl e ↦ rw e (p, All-put_stream P s ss p a.1)
    | inr e ↦ rw e (a.0, All-put_stream P s ss p a.1)
  ]

  pub All-remove_stream :
      (P : Stream rte → Type 0) (p : ℕ) (ss : List (Stream rte))
      → All P ss
      → All P (remove_stream rte p ss)
  All-remove_stream P p [] a = tt
  All-remove_stream P p (x ∷ ss) a = elim (Bool-cases (x.ptr == p)) [
    | inl e ↦ rw e a.1
    | inr e ↦ rw e (a.0, All-remove_stream P p ss a.1)
  ]

  pub All-first :
      (P : Stream rte → Type 0) (test : Stream rte → Bool) (ss : List (Stream rte)) (s : Stream rte)
      → first rte test ss ≡ some s
      → All P ss
      → P s
  All-first P test [] s e a = ground (arith, e)
  All-first P test (x ∷ ss) s e a = elim (Bool-cases (test x)) [
    | inl t ↦ let e' : some x ≡ some s = rw t at e in subst P (some-injective x s e') a.0
    | inr t ↦ let e' : first rte test ss ≡ some s = rw t at e in All-first P test ss s e' a.1
  ]

  -- A write of a stream in place of one that listens as it does.
  pub has_listener-put_stream :
      (d : ℕ) (s s' : Stream rte) (ss : List (Stream rte))
      → s'.ptr ≡ s.ptr
      → listens rte d s' ≡ listens rte d s
      → has_listener d (put_stream rte s' ss) ≡ has_listener d (put_stream rte s ss)
  has_listener-put_stream d s s' [] e l = refl
  has_listener-put_stream d s s' (x ∷ ss) e l =
      let more = has_listener-put_stream d s s' ss e l in
      elim (Bool-cases (x.ptr == s.ptr)) [
        | inl c ↦ rw (e, c, l, more) refl
        | inr c ↦ rw (e, c, more) refl
      ]

  -- A removal of a stream that does not listen.
  pub has_listener-remove_stream :
      (d p : ℕ) (ss : List (Stream rte)) (s : Stream rte)
      → status_at rte p ss ≡ some s.status
      → status_eq s.status listen ≡ false
      → has_listener d (remove_stream rte p ss) ≡ has_listener d ss
  has_listener-remove_stream d p [] s e n = refl
  has_listener-remove_stream d p (x ∷ ss) s e n =
      ground (arith, has_listener-remove_stream d p ss s)

  pub has_listener-first :
      (d : ℕ) (ss : List (Stream rte))
      → has_listener d ss ≡ true
      → (s : Stream rte) × (first rte (listens rte d) ss ≡ some s)
  has_listener-first d [] h = ground (arith, h)
  has_listener-first d (x ∷ ss) h = elim (Bool-cases (listens rte d x)) [
    | inl e ↦ (x, rw e refl)
    | inr e ↦ let h' = rw e at h in let (s, f) = has_listener-first d ss h' in (s, rw (e, f) refl)
  ]

  pub has_listener_of_first :
      (d : ℕ) (test : Stream rte → Bool) (ss : List (Stream rte)) (s : Stream rte)
      → first rte test ss ≡ some s
      → listens rte d s ≡ true
      → has_listener d ss ≡ true
  has_listener_of_first d test [] s e l = ground (arith, e)
  has_listener_of_first d test (x ∷ ss) s e l = elim (Bool-cases (test x)) [
    | inl t ↦
        let e' : some x ≡ some s = rw t at e in
        let l' : listens rte d x ≡ true =
          subst (λ y. listens rte d y ≡ true) (sym (some-injective x s e')) l in
        rw l' refl
    | inr t ↦
        let e' : first rte test ss ≡ some s = rw t at e in
        rw (has_listener_of_first d test ss s e' l) (or_true (listens rte d x))
  ]
    where
      or_true : (b : Bool) → (b || true) ≡ true
      or_true true = refl
      or_true false = refl

  pub vacant_of_below :
      (n : ℕ) (ss ss' : List (Stream rte)) → All (Fine n ss') ss → vacant rte n ss ≡ true
  vacant_of_below n [] ss' a = refl
  vacant_of_below n (x ∷ ss) ss' a = ground (arith, a.0.0, vacant_of_below n ss ss' a.1)
