-- ===== src/Serve/GroupTests.antt =====
-- The joining of a group on two interfaces, of which one refuses.
use weverywhere.Prelude.{◌≡◌, refl, ◌⊎◌, true, false, List, [], ◌∷◌, All, In, is_empty, ◌==◌, not}
use weverywhere.Prelude.Ip.{v4, v6}
use weverywhere.NetUtils.{Interface}
use weverywhere.Serve.Group.{
  Host, member_v4, member_v6, attempts, join_group, is_v4, join_group-joins,
}

abbrev host : Host
host = record {
  binds = λ v4. true;
  set_options = λ v4. true;
  joins = λ group m. elim m [ member_v4 a ↦ not (a == 7) | member_v6 i ↦ true ];
}

abbrev two : List Interface
two =
    record { index = 1; name = []; addrs = v4 7 ∷ [] }
    ∷ record { index = 2; name = []; addrs = v6 1 ∷ v4 8 ∷ [] }
    ∷ []

join_group-joins_example :
    All (λ m. (host.joins (v4 9) m ≡ false) ⊎ In m (member_v4 8 ∷ [])) (attempts (v4 9) two)
    × ((is_v4 host (v4 9) ≡ false) ⊎ (is_empty (member_v4 8 ∷ []) ≡ false))
unfolding join_group
join_group-joins_example = join_group-joins host two (v4 9) (member_v4 8 ∷ []) refl
