-- ===== src/Net/Returns.antt =====
-- dpdk-code/14_tcp_concurrency/tcp_concurrency.c: runs that return, with a property of what they
-- return.
use dpdk_learning.Net.State.{Run, crash, exit, wait, done, ◌>>=◌}

-- The run returns, and what it returns has the property.
abbrev pub Returns {ℓ} : {A : Type ℓ} → (A → Type 0) → Run A → Type 0
Returns P (done a) = P a
Returns P crash = ⊥
Returns P exit = ⊥
Returns P wait = ⊥

pub Returns-bind {ℓ κ} :
    {A : Type ℓ} {B : Type κ} (P : A → Type 0) (Q : B → Type 0) (r : Run A) (f : A → Run B)
    → Returns P r
    → ((a : A) → P a → Returns Q (f a))
    → Returns Q (r >>= f)
Returns-bind P Q (done a) f p h = h a p
Returns-bind P Q crash f p h = absurd p
Returns-bind P Q exit f p h = absurd p
Returns-bind P Q wait f p h = absurd p

pub Returns-map {ℓ} :
    {A : Type ℓ} (P Q : A → Type 0) (r : Run A) → Returns P r → ((a : A) → P a → Q a) → Returns Q r
Returns-map P Q (done a) p h = h a p
Returns-map P Q crash p h = p
Returns-map P Q exit p h = p
Returns-map P Q wait p h = p
