-- ===== src/Args/Tests.antt =====
-- The command line's parts at concrete arguments, and the default groups.
use weverywhere.Prelude.{
  ◌≡◌, refl, [], ◌∷◌, Option, none, some, Text, bytes_eq, if◌then◌else◌, decimal, split_once,
}
use weverywhere.Prelude.Utf8.{codes}
use weverywhere.Prelude.Ip.{IpAddr, v4, v6, ip_text, v4_text, v6_text}
use weverywhere.Args.{parse_arg_map, default_multicast_groups}
use weverywhere.Args.Groups.{groups_text, from_str, from_string}
use weverywhere.Args.Display.{Readable, from_str-groups_text}

-- Only the two default groups are read.
abbrev read_default : Text → Option IpAddr
read_default s =
    if bytes_eq s (codes "224.0.0.3")
    then some (v4 0xe0000003)
    else if bytes_eq s (codes "ff02::3")
    then some (v6 0xff02_0000_0000_0000_0000_0000_0000_0003)
    else none

defaults-Readable : Readable read_default default_multicast_groups
unfolding default_multicast_groups ip_text v4_text v6_text decimal bytes_eq
defaults-Readable = ((refl, refl), ((refl, refl), tt))

default_text : groups_text default_multicast_groups ≡ codes "224.0.0.3,ff02::3"
unfolding groups_text default_multicast_groups ip_text v4_text v6_text decimal
default_text = refl

from_str-groups_text_example :
    from_str read_default (groups_text default_multicast_groups) ≡ some default_multicast_groups
unfolding default_multicast_groups
from_str-groups_text_example =
    from_str-groups_text read_default default_multicast_groups defaults-Readable (λ e. cc)

-- What is no multicast address is ignored, and where nothing is left, the defaults are taken.
falls_back : from_string read_default (codes "10.0.0.1, nonsense") ≡ default_multicast_groups
unfolding from_string bytes_eq
falls_back = refl

pairs :
    parse_arg_map (codes "mode=a=b" ∷ codes "flag" ∷ [])
    ≡ (codes "mode", codes "a=b") ∷ (codes "flag", []) ∷ []
unfolding parse_arg_map split_once
pairs = refl
