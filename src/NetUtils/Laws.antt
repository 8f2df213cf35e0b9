-- ===== src/NetUtils/Laws.antt =====
-- src/net_utils.rs: the address that is chosen.
use weverywhere.Prelude.{
  ℕ, ◌≤◌, ◌≡◌, ◌≢◌, ◌↔◌, ◌/◌, ◌^◌, false, refl, sym, ◌∙◌, true, List, [], ◌∷◌, ◌++◌, append_assoc,
  Option, none, some, arith, subst, append-nil, All-append, In, In-left, In-right, at_head, ltb,
  Bool-cases, inl, inr, All, ◌⊎◌,
}
use weverywhere.Prelude.Ip.{IpAddr, v4, v6}
use weverywhere.NetUtils.{
  Interface, is_candidate, common_prefix_bits, consider, consider_all, consider_interfaces,
  local_addr_facing, addr_of,
}

-- All addresses of the interfaces.
pub all_addrs : List Interface → List IpAddr
all_addrs [] = []
all_addrs (i ∷ is) = i.addrs ++ all_addrs is

consider_all-append :
    (peer : IpAddr) (best : Option (ℕ × IpAddr)) (xs ys : List IpAddr)
    → consider_all peer best (xs ++ ys) ≡ consider_all peer (consider_all peer best xs) ys
unfolding consider_all
consider_all-append peer best [] ys = refl
consider_all-append peer best (x ∷ xs) ys = consider_all-append peer (consider peer best x) xs ys

consider_interfaces-flat :
    (peer : IpAddr) (best : Option (ℕ × IpAddr)) (is : List Interface)
    → consider_interfaces peer best is ≡ consider_all peer best (all_addrs is)
unfolding consider_interfaces consider_all all_addrs
consider_interfaces-flat peer best [] = refl
consider_interfaces-flat peer best (i ∷ is) =
    consider_interfaces-flat peer (consider_all peer best i.addrs) is
    ∙ sym (consider_all-append peer best i.addrs (all_addrs is))

-- An address that may face the peer: of its family, not 0.0.0.0 or ::, and of 127.0.0.0/8 or ::1 only
-- if the peer is.
abbrev pub IsUsable : IpAddr → IpAddr → Type 0
IsUsable (v4 p) (v4 a) = (a ≢ 0) × (a / 2 ^ 24 ≡ 127 → p / 2 ^ 24 ≡ 127)
IsUsable (v6 p) (v6 a) = (a ≢ 0) × (a ≡ 1 → p ≡ 1)
IsUsable (v4 p) (v6 a) = ⊥
IsUsable (v6 p) (v4 a) = ⊥

is_candidate_iff : (peer a : IpAddr) → (is_candidate peer a ≡ true) ↔ IsUsable peer a
unfolding is_candidate
is_candidate_iff (v4 p) (v4 a) = ground arith
is_candidate_iff (v6 p) (v6 a) = ground arith
is_candidate_iff (v4 p) (v6 a) = ground arith
is_candidate_iff (v6 p) (v4 a) = ground arith

not_usable : (peer a : IpAddr) → is_candidate peer a ≡ false → IsUsable peer a → ⊥
not_usable peer a h u = let c = (is_candidate_iff peer a).1 u in cc (h, c)

-- No candidate of the list agrees with the peer in more leading bits.
abbrev NoneBetter : IpAddr → ℕ → List IpAddr → Type 0
NoneBetter peer bits = All λ a. (is_candidate peer a ≡ false) ⊎ (common_prefix_bits a peer ≤ bits)

-- The best of a list of addresses for a peer, if one is usable.
pub data Best (peer : IpAddr) (addrs : List IpAddr) : Option IpAddr → Type 0 where
  none_usable : All (λ a. IsUsable peer a → ⊥) addrs → Best peer addrs none
  best :
      (a : IpAddr)
      → In a addrs
      → IsUsable peer a
      → All
          (λ b. (IsUsable peer b → ⊥) ⊎ (common_prefix_bits b peer ≤ common_prefix_bits a peer))
          addrs
      → Best peer addrs (some a)

-- The state of the loop after the addresses `seen`.
abbrev Inv : IpAddr → List IpAddr → Option (ℕ × IpAddr) → Type 0
Inv peer seen none = All (λ a. is_candidate peer a ≡ false) seen
Inv peer seen (some (bits, a)) =
    (bits ≡ common_prefix_bits a peer)
    × In a seen
    × (is_candidate peer a ≡ true)
    × NoneBetter peer bits seen

NoneBetter-weaken :
    (peer : IpAddr) (m n : ℕ) (xs : List IpAddr)
    → m ≤ n
    → NoneBetter peer m xs
    → NoneBetter peer n xs
NoneBetter-weaken peer m n [] le h = tt
NoneBetter-weaken peer m n (x ∷ xs) le (inl e, h) = (inl e, NoneBetter-weaken peer m n xs le h)
NoneBetter-weaken peer m n (x ∷ xs) le (inr b, h) =
    (inr (omega arith), NoneBetter-weaken peer m n xs le h)

none-NoneBetter :
    (peer : IpAddr) (n : ℕ) (xs : List IpAddr)
    → All (λ a. is_candidate peer a ≡ false) xs
    → NoneBetter peer n xs
none-NoneBetter peer n [] h = tt
none-NoneBetter peer n (x ∷ xs) h = (inl h.0, none-NoneBetter peer n xs h.1)

-- The candidate `x` becomes the best.
Inv-new :
    (peer : IpAddr) (seen : List IpAddr) (x : IpAddr)
    → is_candidate peer x ≡ true
    → NoneBetter peer (common_prefix_bits x peer) seen
    → Inv peer (seen ++ x ∷ []) (some (common_prefix_bits x peer, x))
Inv-new peer seen x c h = (
  refl,
  In-right x seen (x ∷ []) (at_head refl),
  c,
  All-append _ seen (x ∷ []) h (inr (omega arith), tt),
)

consider-Inv :
    (peer : IpAddr) (seen : List IpAddr) (x : IpAddr) (st : Option (ℕ × IpAddr))
    → Inv peer seen st
    → Inv peer (seen ++ x ∷ []) (consider peer st x)
unfolding consider
consider-Inv peer seen x none h = elim (Bool-cases (is_candidate peer x)) [
  | inl c ↦ rw c (Inv-new peer seen x c (none-NoneBetter peer _ seen h))
  | inr c ↦ rw c (All-append _ seen (x ∷ []) h (c, tt))
]
consider-Inv peer seen x (some (bits, a)) (e, m, ca, nb) = elim (Bool-cases (is_candidate peer x)) [
  | inr c ↦ rw c (e, In-left a seen (x ∷ []) m, ca, All-append _ seen (x ∷ []) nb (inl c, tt))
  | inl c ↦ elim (Bool-cases (ltb bits (common_prefix_bits x peer))) [
    | inl lt ↦
        rw (c, lt) (Inv-new peer seen x c (NoneBetter-weaken peer bits _ seen (ground arith) nb))
    | inr ge ↦
        rw (c, ge)
          (e, In-left a seen (x ∷ []) m, ca, All-append _ seen (x ∷ []) nb (inr (ground arith), tt))
  ]
]

consider_all-Inv :
    (peer : IpAddr) (seen xs : List IpAddr) (st : Option (ℕ × IpAddr))
    → Inv peer seen st
    → Inv peer (seen ++ xs) (consider_all peer st xs)
unfolding consider_all
consider_all-Inv peer seen [] st h = rw append-nil h
consider_all-Inv peer seen (x ∷ xs) st h =
    subst (λ l. Inv peer l (consider_all peer (consider peer st x) xs))
      (append_assoc seen (x ∷ []) xs)
      (consider_all-Inv peer (seen ++ x ∷ []) xs (consider peer st x)
        (consider-Inv peer seen x st h))

none-IsUsable :
    (peer : IpAddr) (xs : List IpAddr)
    → All (λ a. is_candidate peer a ≡ false) xs
    → All (λ a. IsUsable peer a → ⊥) xs
none-IsUsable peer [] h = tt
none-IsUsable peer (x ∷ xs) h = (not_usable peer x h.0, none-IsUsable peer xs h.1)

none-better :
    (peer : IpAddr) (n : ℕ) (xs : List IpAddr)
    → NoneBetter peer n xs
    → All (λ b. (IsUsable peer b → ⊥) ⊎ (common_prefix_bits b peer ≤ n)) xs
none-better peer n [] h = tt
none-better peer n (x ∷ xs) (inl bad, h) = (inl (not_usable peer x bad), none-better peer n xs h)
none-better peer n (x ∷ xs) (inr le, h) = (inr le, none-better peer n xs h)

Inv-Best :
    (peer : IpAddr) (xs : List IpAddr) (st : Option (ℕ × IpAddr))
    → Inv peer xs st
    → Best peer xs (addr_of st)
Inv-Best peer xs none h = none_usable (none-IsUsable peer xs h)
Inv-Best peer xs (some (bits, a)) (e, m, ca, nb) =
    best a m ((is_candidate_iff peer a).0 ca)
      (none-better peer _ xs (subst (λ n. NoneBetter peer n xs) e nb))

-- The address of ours that faces a peer is one of our interfaces', of the peer's family and not
-- unspecified, loopback only for a loopback peer, and no other such address of any interface shares
-- more leading bits with the peer. There is none only if no interface has such an address.
pub local_addr_facing-Best :
    (interfaces : List Interface) (peer : IpAddr)
    → Best peer (all_addrs interfaces) (local_addr_facing interfaces peer)
unfolding local_addr_facing
local_addr_facing-Best interfaces peer = rw (consider_interfaces-flat peer none interfaces) (
    Inv-Best peer (all_addrs interfaces) _
      (consider_all-Inv peer [] (all_addrs interfaces) none tt))
