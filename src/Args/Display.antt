-- ===== src/Args/Display.antt =====
-- The text of a list of multicast groups, src/args.rs, reads back.
use weverywhere.Prelude.{
  ℕ, ◌≡◌, ◌≢◌, refl, ap, ◌∙◌, true, List, [], ◌∷◌, ◌++◌, map, Option, some, Text, All, flat_map,
}
use weverywhere.Prelude.Ip.{IpAddr, ip_text, is_multicast, IsPlain, ip_text-IsPlain}
use weverywhere.Args.Groups.{groups_text, onto_first, split, multicast_only, unless_empty, from_str}

plain-split_step : (c : ℕ) (s : Text) → IsPlain c → split (c ∷ s) ≡ onto_first c (split s)
unfolding split
plain-split_step c s h = rw (h.0, h.1) refl

-- A part without separators is the first part, up to the comma.
split-part : (s rest : Text) → All IsPlain s → split (s ++ (b',' ∷ rest)) ≡ s ∷ split rest
unfolding split
split-part [] rest h = refl
split-part (c ∷ s) rest h =
    plain-split_step c (s ++ (b',' ∷ rest)) h.0 ∙ ap (onto_first c) (split-part s rest h.1)

split-last : (s : Text) → All IsPlain s → split s ≡ s ∷ []
unfolding split
split-last [] h = refl
split-last (c ∷ s) h = plain-split_step c s h.0 ∙ ap (onto_first c) (split-last s h.1)

split-groups_text :
    (g : IpAddr) (gs : List IpAddr) → split (groups_text (g ∷ gs)) ≡ map ip_text (g ∷ gs)
unfolding groups_text
split-groups_text g [] = split-last (ip_text g) (ip_text-IsPlain g)
split-groups_text g (h ∷ gs) =
    split-part (ip_text g) (groups_text (h ∷ gs)) (ip_text-IsPlain g)
    ∙ ap (◌∷◌ (ip_text g)) (split-groups_text h gs)

-- Groups that are multicast addresses, each of which its text gives back.
abbrev pub Readable : (Text → Option IpAddr) → List IpAddr → Type 0
Readable ip_from_str = All λ g. (is_multicast g ≡ true) × (ip_from_str (ip_text g) ≡ some g)

read-parts :
    (ip_from_str : Text → Option IpAddr) (gs : List IpAddr)
    → Readable ip_from_str gs
    → flat_map (λ part. multicast_only (ip_from_str part)) (map ip_text gs) ≡ gs
read-parts ip_from_str [] h = refl
read-parts ip_from_str (g ∷ gs) h =
    ap
      (λ o.
        multicast_only o ++ flat_map (λ part. multicast_only (ip_from_str part)) (map ip_text gs))
      h.0.1
    ∙ rw (h.0.0, read-parts ip_from_str gs h.1) refl

-- A list of multicast groups, printed, reads back as itself, if the addresses do and there is one.
pub from_str-groups_text :
    (ip_from_str : Text → Option IpAddr) (gs : List IpAddr)
    → Readable ip_from_str gs
    → gs ≢ []
    → from_str ip_from_str (groups_text gs) ≡ some gs
unfolding from_str
from_str-groups_text ip_from_str [] h some_group = absurd (some_group refl)
from_str-groups_text ip_from_str (g ∷ gs) h some_group =
    ap (λ parts. unless_empty (flat_map (λ part. multicast_only (ip_from_str part)) parts))
      (split-groups_text g gs)
    ∙ ap unless_empty (read-parts ip_from_str (g ∷ gs) h)
