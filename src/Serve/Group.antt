-- ===== src/Serve/Group.antt =====
-- The set-up of `serve_group` in src/command/serve.rs: the socket, and the joining of the group.
use weverywhere.Prelude.{
  ℕ, ◌≡◌, refl, Bool, true, false, List, [], ◌∷◌, map, Option, none, some, if◌then◌else◌, is_empty,
  flat_map, In, at_head, flat_map-In, All, All-In, subst, some_inj, ◌⊎◌, arith, Bool-cases, inl,
  inr,
}
use weverywhere.Prelude.Ip.{IpAddr, v4, v6}
use weverywhere.NetUtils.{Interface}

-- A membership: by an IPv4 address of an interface, the unspecified one standing for the interface of
-- the default route, or by an interface's index.
pub data Membership : Type 0 where
  member_v4 : ℕ → Membership
  member_v6 : ℕ → Membership

-- What the operating system allows: the binding for a family, the socket's options, and memberships.
pub record Host : Type 0 where
  pub binds : Bool → Bool
  pub set_options : Bool → Bool
  pub joins : IpAddr → Membership → Bool

-- The membership that an address of an interface is tried with.
abbrev pub by_v4 : IpAddr → List Membership
by_v4 (v4 a) = member_v4 a ∷ []
by_v4 (v6 a) = []

unfoldable pub attempts : IpAddr → List Interface → List Membership
attempts (v4 g) interfaces = flat_map (λ i. flat_map by_v4 i.addrs) interfaces
attempts (v6 g) interfaces =
    flat_map (λ i. if is_empty i.addrs then [] else member_v6 i.index ∷ []) interfaces

module _ (host : Host) where
  unfoldable pub accepted : IpAddr → List Membership → List Membership
  accepted group ms = flat_map (λ m. if host.joins group m then m ∷ [] else []) ms

  -- `if !joined_any { … }`, for IPv4; the end of an IPv6 group's joining only warns.
  abbrev pub or_default : IpAddr → List Membership → Option (List Membership)
  or_default (v4 g) [] = if host.joins (v4 g) (member_v4 0) then some (member_v4 0 ∷ []) else none
  or_default (v6 g) [] = some []
  or_default group (m ∷ ms) = some (m ∷ ms)

  -- The memberships with which the loop starts; `none` is an error of the listener.
  unfoldable pub join_group : List Interface → IpAddr → Option (List Membership)
  unfolding attempts accepted
  join_group interfaces group = or_default group (accepted group (attempts group interfaces))

  abbrev pub is_v4 : IpAddr → Bool
  is_v4 (v4 a) = true
  is_v4 (v6 a) = false

  unfoldable pub set_up : List Interface → IpAddr → Option (List Membership)
  unfolding join_group
  set_up interfaces group =
      if host.binds (is_v4 group)
      then if host.set_options (is_v4 group) then join_group interfaces group else none
      else none

  -- `spawn_listeners`: one task for each group, whose set-up may fail without the others.
  unfoldable pub spawn_listeners : List Interface → List IpAddr → List (Option (List Membership))
  unfolding set_up
  spawn_listeners interfaces groups = map (set_up interfaces) groups

  In-accepted :
      (group : IpAddr) (m : Membership) (ms : List Membership)
      → In m ms
      → host.joins group m ≡ true
      → In m (accepted group ms)
  unfolding accepted
  In-accepted group m ms among ok =
      flat_map-In (λ x. if host.joins group x then x ∷ [] else []) m m ms among
        (rw ok (at_head refl))

  joined-In :
      (group : IpAddr) (ms js : List Membership) (m : Membership)
      → or_default group ms ≡ some js
      → In m ms
      → In m js
  joined-In group [] js m h found = elim found [ ]
  joined-In (v4 g) (x ∷ xs) js m h found = subst (In m) (some_inj h) found
  joined-In (v6 g) (x ∷ xs) js m h found = subst (In m) (some_inj h) found

  joined-some :
      (g : ℕ) (ms js : List Membership) → or_default (v4 g) ms ≡ some js → is_empty js ≡ false
  joined-some g [] js h = ground arith
  joined-some g (x ∷ xs) js h = ground arith

  -- A listener that starts has every membership that it tried and was allowed, one refused keeping no
  -- other back; and if its group is an IPv4 address, it has one at least.
  pub join_group-joins :
      (interfaces : List Interface) (group : IpAddr) (js : List Membership)
      → join_group interfaces group ≡ some js
      → All (λ m. (host.joins group m ≡ false) ⊎ In m js) (attempts group interfaces)
        × ((is_v4 group ≡ false) ⊎ (is_empty js ≡ false))
  unfolding join_group
  join_group-joins interfaces group js h = (
    All-In _ (attempts group interfaces) (λ m among. elim (Bool-cases (host.joins group m)) [
      | inl ok ↦ inr (joined-In group _ js m h (In-accepted group m _ among ok))
      | inr refused ↦ inl refused
    ]),
    elim group
          as (λ g.
            or_default g (accepted g (attempts g interfaces)) ≡ some js
            → (is_v4 g ≡ false) ⊎ (is_empty js ≡ false)) [
              | v4 g ↦ λ e. inr (joined-some g _ js e)
              | v6 g ↦ λ e. inl refl
            ]
        h,
  )
