-- ===== src/NetUtils/Tests.antt =====
-- The choice of an address on a node with two interfaces.
use weverywhere.Prelude.{◌≡◌, ◌↔◌, ◌≤◌, refl, [], ◌∷◌, some, List, arith}
use weverywhere.Prelude.Ip.{v4, v6}
use weverywhere.NetUtils.{
  Interface, common_prefix_bits, shared_bits, is_candidate, consider, consider_all,
  consider_interfaces, local_addr_facing, first_resolved,
}
use weverywhere.NetUtils.Prefix.{network, common_prefix_bits-network_iff}
use weverywhere.NetUtils.Laws.{Best, all_addrs, local_addr_facing-Best}

-- 127.0.0.1 and ::1, then 10.0.0.5 and 192.168.1.7.
abbrev node : List Interface
node =
    record { index = 1; name = []; addrs = v4 0x7f000001 ∷ v6 1 ∷ [] }
    ∷ record { index = 2; name = []; addrs = v4 0x0a000005 ∷ v4 0xc0a80107 ∷ [] }
    ∷ []

-- For 192.168.1.20.
facing_lan : local_addr_facing node (v4 0xc0a80114) ≡ some (v4 0xc0a80107)
unfolding local_addr_facing consider_interfaces consider_all consider is_candidate
    common_prefix_bits shared_bits
facing_lan = refl

local_addr_facing-Best_example :
    Best (v4 0xc0a80114) (all_addrs node) (local_addr_facing node (v4 0xc0a80114))
local_addr_facing-Best_example = local_addr_facing-Best node (v4 0xc0a80114)

lan_bits : common_prefix_bits (v4 0xc0a80107) (v4 0xc0a80114) ≡ 27
unfolding common_prefix_bits shared_bits
lan_bits = refl

-- A host that resolves to nothing is passed over.
passes_over :
    first_resolved
      (λ host. elim host [ [] ↦ some [] | c ∷ cs ↦ some (record { ip = v6 1; port = 9 } ∷ []) ])
      ([] ∷ (97 ∷ []) ∷ [])
    ≡ some (record { ip = v6 1; port = 9 })
unfolding first_resolved
passes_over = refl

-- 192.168.1.7 and 192.168.1.20 are both of 192.168.1.0/24.
common_prefix_bits-network_iff_example :
    (network 24 (v4 0xc0a80107) ≡ network 24 (v4 0xc0a80114))
    ↔ (24 ≤ common_prefix_bits (v4 0xc0a80107) (v4 0xc0a80114))
common_prefix_bits-network_iff_example =
    common_prefix_bits-network_iff 24 (v4 0xc0a80107) (v4 0xc0a80114) refl (omega arith)
      (omega arith) (omega arith)
