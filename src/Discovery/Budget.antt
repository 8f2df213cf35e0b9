-- ===== src/Discovery/Budget.antt =====
-- The depth budget along a path of the discovery tree.
use weverywhere.Prelude.{
  ℕ, zero, suc, ◌+◌, ◌-◌, ◌≤◌, ◌≡◌, refl, Bool, true, false, List, [], ◌∷◌, ◌++◌, arith, length,
  ◌↔◌, replicate,
}
use weverywhere.Discovery.{
  trust_cap, initial_depth_budget, child_depth_budget, attestation_time_ok, trusted_forward_depth,
  untrusted_forward_depth,
}

-- The budget that is left when a program with budget `b` has been forwarded along the edges of a
-- path, each trusted or not by the node that forwards.
unfoldable pub budget_along : ℕ → List Bool → ℕ
budget_along b [] = b
budget_along b (t ∷ path) = budget_along (child_depth_budget b t) path

-- A grant is below what the forwarder was granted, and within the cap of its edge.
child_depth_budget-le :
    (b : ℕ) (t : Bool) → (child_depth_budget b t ≤ b - 1) × (child_depth_budget b t ≤ trust_cap t)
unfolding child_depth_budget
child_depth_budget-le b t = ground arith

budget_along-le : (b : ℕ) (path : List Bool) → budget_along b path ≤ b - length path
unfolding budget_along
budget_along-le b [] = omega arith
budget_along-le b (t ∷ path) =
    omega (arith, budget_along-le (child_depth_budget b t) path, (child_depth_budget-le b t).0)

pub budget_along-append :
    (b : ℕ) (p q : List Bool) → budget_along b (p ++ q) ≡ budget_along (budget_along b p) q
unfolding budget_along
budget_along-append b [] q = refl
budget_along-append b (t ∷ p) q = budget_along-append (child_depth_budget b t) p q

-- After a path of n hops behind the origin's first responder at most 8 - n hops are left, and after a
-- path whose last n hops follow an untrusted edge at most 2 - n.
pub budget_along-bounds :
    (origin : Bool) (p q : List Bool)
    → (budget_along (initial_depth_budget origin) p ≤ trusted_forward_depth - length p)
      × (budget_along (initial_depth_budget origin) (p ++ false ∷ q)
          ≤ untrusted_forward_depth - length q)
unfolding initial_depth_budget budget_along trust_cap
budget_along-bounds origin p q =
    let start = initial_depth_budget origin in
    let small : start ≤ 8 = ground arith in
    let near = budget_along start p in
    (
      omega (arith, budget_along-le start p),
      rw (budget_along-append start p (false ∷ q)) (
          omega (
            arith,
            budget_along-le (child_depth_budget near false) q,
            (child_depth_budget-le near false).1,
          )),
    )

budget_along-replicate :
    (b n : ℕ) → b ≤ trusted_forward_depth → budget_along b (replicate n true) ≡ b - n
unfolding budget_along child_depth_budget trust_cap
budget_along-replicate b zero h = omega arith
budget_along-replicate b (suc n) h =
    omega (arith, budget_along-replicate (child_depth_budget b true) n (ground arith), grant)
  where
    grant : child_depth_budget b true ≡ b - 1
    grant = ground arith

-- A fully trusted path is granted all 8 hops, one by one.
pub budget_along-trusted :
    (n : ℕ)
    → budget_along (initial_depth_budget true) (replicate n true) ≡ trusted_forward_depth - n
unfolding initial_depth_budget
budget_along-trusted n = budget_along-replicate 8 n (omega arith)

-- A timestamp is accepted exactly when it lies within 30 seconds of the verifier's clock.
pub attestation_time_ok_iff :
    (epoch_s now : ℕ)
    → (attestation_time_ok epoch_s now ≡ true) ↔ ((epoch_s ≤ now + 30) × (now ≤ epoch_s + 30))
unfolding attestation_time_ok
attestation_time_ok_iff epoch_s now = ground arith
