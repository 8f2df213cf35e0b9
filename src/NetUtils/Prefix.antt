-- ===== src/NetUtils/Prefix.antt =====
-- What `common_prefix_bits` of src/net_utils.rs counts: the longest network of which both addresses are.
use weverywhere.Prelude.{
  ℕ, zero, suc, ◌+◌, ◌-◌, ◌/◌, ◌%◌, ◌^◌, ◌≤◌, ◌≡◌, ap, sym, subst, ◌∙◌, inl, inr, ◌↔◌, arith,
  Bool-cases, ◌==◌,
}
use native.Mathlib.Nat.{div-div-eq-div-mul, div-eq_of_lt, pow-suc}
use weverywhere.Prelude.Ip.{IpAddr, v4, v6, is_ipv4}
use weverywhere.NetUtils.{shared_bits, common_prefix_bits}

div-pow_suc : (a j : ℕ) → a / 2 ^ suc j ≡ a / 2 ^ j / 2
div-pow_suc a j = rw (pow-suc 2 j) (sym (div-div-eq-div-mul a (2 ^ j) 2))

halves : (m n : ℕ) → (m / 2 ≡ n / 2) → (m % 2 ≡ n % 2) → m ≡ n
halves m n h e = omega arith

-- The quotients of a longer prefix tell those of a shorter one.
shorter : (a b k j : ℕ) → a / 2 ^ j ≡ b / 2 ^ j → a / 2 ^ (k + j) ≡ b / 2 ^ (k + j)
shorter a b zero j h = let e : j ≡ 0 + j = omega arith in subst (λ n. a / 2 ^ n ≡ b / 2 ^ n) e h
shorter a b (suc k) j h =
    let e : suc (k + j) ≡ suc k + j = omega arith in
    subst (λ n. a / 2 ^ n ≡ b / 2 ^ n) e
      (rw (div-pow_suc a (k + j), div-pow_suc b (k + j)) (ap (λ n. n / 2) (shorter a b k j h)))

-- Two numbers that agree above w bits agree in the upper k of these exactly if they share k bits.
shared_bits-prefix_iff :
    (a b w k j : ℕ)
    → k + j ≡ w
    → a / 2 ^ w ≡ b / 2 ^ w
    → (a / 2 ^ j ≡ b / 2 ^ j) ↔ (k ≤ shared_bits w a b)
unfolding shared_bits
shared_bits-prefix_iff a b zero zero j e h =
    let e' : 0 ≡ j = omega arith in
    ((λ g. omega arith), (λ g. subst (λ n. a / 2 ^ n ≡ b / 2 ^ n) e' h))
shared_bits-prefix_iff a b zero (suc k) j e h = ground arith
shared_bits-prefix_iff a b (suc w) zero j e h =
    let e' : suc w ≡ j = omega arith in
    ((λ g. omega arith), (λ g. subst (λ n. a / 2 ^ n ≡ b / 2 ^ n) e' h))
shared_bits-prefix_iff a b (suc w) (suc k) j e h =
    let e' : k + j ≡ w = omega arith in
    elim (Bool-cases (a / 2 ^ w % 2 == b / 2 ^ w % 2)) [
      | inl same ↦
          let bit : a / 2 ^ w % 2 ≡ b / 2 ^ w % 2 = ground arith in
          let above = halves _ _ (sym (div-pow_suc a w) ∙ h ∙ div-pow_suc b w) bit in
          let (up, down) = shared_bits-prefix_iff a b w k j e' above in
          rw same (
            (λ g. let l = up g in omega arith),
            (λ l. let l' : k ≤ shared_bits w a b = omega arith in down l'),
          )
      | inr other ↦ rw other (
        (λ g.
            let equal : a / 2 ^ w ≡ b / 2 ^ w =
              subst (λ n. a / 2 ^ n ≡ b / 2 ^ n) e' (shorter a b k j g) in
            let bit : a / 2 ^ w % 2 ≡ b / 2 ^ w % 2 = ap (λ n. n % 2) equal in ground arith),
        (λ l. omega arith),
      )
    ]

-- An address of its family's width, and the network of it that has k bits.
abbrev pub IsInWidth : IpAddr → Type 0
IsInWidth (v4 a) = suc a ≤ 2 ^ 32
IsInWidth (v6 a) = suc a ≤ 2 ^ 128

abbrev pub width : IpAddr → ℕ
width (v4 a) = 32
width (v6 a) = 128

abbrev pub network : ℕ → IpAddr → IpAddr
network k (v4 a) = v4 (a / 2 ^ (32 - k))
network k (v6 a) = v6 (a / 2 ^ (128 - k))

-- Two addresses of a family are in the same network of k bits, for any k up to the family's width,
-- exactly if they share k bits or more.
pub common_prefix_bits-network_iff :
    (k : ℕ) (a b : IpAddr)
    → is_ipv4 a ≡ is_ipv4 b
    → IsInWidth a
    → IsInWidth b
    → k ≤ width a
    → (network k a ≡ network k b) ↔ (k ≤ common_prefix_bits a b)
unfolding common_prefix_bits
common_prefix_bits-network_iff k (v4 a) (v4 b) same la lb short =
    let e : k + (32 - k) ≡ 32 = omega arith in
    let (up, down) =
      shared_bits-prefix_iff a b 32 k (32 - k) e (div-eq_of_lt la ∙ sym (div-eq_of_lt lb)) in
    ((λ h. let g : a / 2 ^ (32 - k) ≡ b / 2 ^ (32 - k) = cc in up g), (λ l. ap v4 (down l)))
common_prefix_bits-network_iff k (v6 a) (v6 b) same la lb short =
    let e : k + (128 - k) ≡ 128 = omega arith in
    let (up, down) =
      shared_bits-prefix_iff a b 128 k (128 - k) e (div-eq_of_lt la ∙ sym (div-eq_of_lt lb)) in
    ((λ h. let g : a / 2 ^ (128 - k) ≡ b / 2 ^ (128 - k) = cc in up g), (λ l. ap v6 (down l)))
common_prefix_bits-network_iff k (v4 a) (v6 b) same la lb short = ground arith
common_prefix_bits-network_iff k (v6 a) (v4 b) same la lb short = ground arith
