-- ===== src/Net/Prefix/Laws.antt =====
-- Containment of IPv4 networks.
use native.Mathlib.Nat.{
  pow-suc, pow-zero, add-zero, add-suc, mul-div_cancel, mul_assoc, div-div-eq-div-mul,
}
use fyrwall.Base.{ℕ, zero, suc, ◌+◌, ◌-◌, ◌*◌, ◌/◌, ◌^◌, ◌≤◌, ◌<◌, ◌≡◌, refl, true, arith, ◌↔◌, ◌∙◌}
use fyrwall.Net.Parse.{v4, raw4}
use fyrwall.Net.Prefix.{Network, net_contains, keep, network}

pow-add : (b s k : ℕ) → b ^ (s + k) ≡ b ^ s * b ^ k
pow-add b s zero = rw (add-zero, pow-zero) (omega arith)
pow-add b s (suc k) = simp (add-suc, pow-suc, pow-add b s k, mul_assoc)

pow-pos : (k : ℕ) → 0 < 2 ^ k
pow-pos zero = omega arith
pow-pos (suc k) = rw pow-suc (omega (arith, pow-pos k))

div-pow-add : (n s k : ℕ) → n / 2 ^ (s + k) ≡ n / 2 ^ s / 2 ^ k
div-pow-add n s k = rw (pow-add 2 s k, div-div-eq-div-mul)

div-keep : (n w p : ℕ) → keep w p n / 2 ^ (w - p) ≡ n / 2 ^ (w - p)
div-keep n w p = mul-div_cancel (n / 2 ^ (w - p)) (pow-pos (w - p))

-- leading bits that agree, agree in any shorter prefix
shorten : (a x s k : ℕ) → a / 2 ^ s ≡ x / 2 ^ s → a / 2 ^ (s + k) ≡ x / 2 ^ (s + k)
shorten a x s k h = cc (div-pow-add a s k, div-pow-add x s k, h)

abbrev pub network4 : ℕ → ℕ → Network
network4 n p = network (raw4 n) p

contains_iff :
    (n p x : ℕ)
    → (net_contains (network4 n p) (v4 x) ≡ true) ↔ (n / 2 ^ (32 - p) ≡ x / 2 ^ (32 - p))
unfolding net_contains
contains_iff n p x = rw (div-keep n 32 p) (ground arith)

-- Where the outer prefix is not the longer one and holds the address of the inner network, it
-- holds every address of the inner network.
pub contains4_trans :
    (n p m q x : ℕ)
    → q ≤ p
    → p ≤ 32
    → net_contains (network4 m q) (v4 n) ≡ true
    → net_contains (network4 n p) (v4 x) ≡ true
    → net_contains (network4 m q) (v4 x) ≡ true
contains4_trans n p m q x h fits outer inner =
    let e : 32 - p + (p - q) ≡ 32 - q = omega arith in
    let same = shorten n x (32 - p) (p - q) ((contains_iff n p x).0 inner) in
    (contains_iff m q x).1 ((contains_iff m q n).0 outer ∙ (rw e at same))

-- A network holds its own address, whatever the prefix.
pub contains4_base : (n p : ℕ) → net_contains (network4 n p) (v4 n) ≡ true
contains4_base n p = (contains_iff n p n).1 refl
