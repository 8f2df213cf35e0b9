-- ===== src/Args/Groups.antt =====
-- `MulticastAddressVec` of src/args.rs: a list of multicast groups, as text and read from text.
use weverywhere.Prelude.{
  ℕ, Bool, List, [], ◌∷◌, ◌++◌, map, Option, none, some, Text, ◌==◌, ◌||◌, if◌then◌else◌, flat_map,
}
use weverywhere.Prelude.Ip.{IpAddr, ip_text, is_multicast}
use weverywhere.Args.{default_multicast_groups}

-- `join(",")`.
unfoldable pub join : List Text → Text
join [] = []
join (s ∷ []) = s
join (s ∷ t ∷ ss) = s ++ (b',' ∷ join (t ∷ ss))

-- `Display`.
unfoldable pub groups_text : List IpAddr → Text
unfolding join
groups_text groups = join (map ip_text groups)

-- `[' ', ',']`.
abbrev pub is_separator : ℕ → Bool
is_separator c = c == b' ' || c == b','

-- `split`: the parts between the separators, of which there is always one.
abbrev pub onto_first : ℕ → List Text → List Text
onto_first c [] = (c ∷ []) ∷ []
onto_first c (s ∷ ss) = (c ∷ s) ∷ ss

unfoldable pub split : Text → List Text
split [] = [] ∷ []
split (c ∷ s) = let rest = split s in if is_separator c then [] ∷ rest else onto_first c rest

-- What a part adds to the groups; the rest is warned of.
abbrev pub multicast_only : Option IpAddr → List IpAddr
multicast_only none = []
multicast_only (some a) = if is_multicast a then a ∷ [] else []

abbrev pub unless_empty : List IpAddr → Option (List IpAddr)
unless_empty [] = none
unless_empty (g ∷ gs) = some (g ∷ gs)

-- `FromStr`, with `IpAddr::from_str` as the parser of a part.
unfoldable pub from_str : (Text → Option IpAddr) → Text → Option (List IpAddr)
unfolding split
from_str ip_from_str s =
    unless_empty (flat_map (λ part. multicast_only (ip_from_str part)) (split s))

-- `From<String>`.
unfoldable pub from_string : (Text → Option IpAddr) → Text → List IpAddr
unfolding from_str
from_string ip_from_str s = elim (from_str ip_from_str s) [
  | some groups ↦ groups
  | none ↦ default_multicast_groups
]
