-- ===== src/Prelude/Ip.antt =====
-- `std::net` addresses as the program uses them: an IPv4 address is a u32, an IPv6 address a u128,
-- with their tests, their text form, and socket addresses.
use Prim.Native.Nat.{ℕ, zero, suc, ◌+◌, ◌-◌, ◌*◌, ◌/◌, ◌%◌, ◌^◌}
use mathlib.Core.Path.{◌≡◌, refl}
use mathlib.Core.Bool.{Bool, true, false, ◌&&◌}
use mathlib.Core.Logic.{inl, inr}
use native.Mathlib.Omega.{arith}
use mathlib.Core.List.{List, [], ◌∷◌, ◌++◌}
use weverywhere.Prelude.Tests.{ltb, Bool-cases, ◌==◌, if◌then◌else◌}
use weverywhere.Prelude.Lists.{Text, All, All-append, All-if, take, drop}
use weverywhere.Prelude.Utf8.{codes}
use weverywhere.Prelude.Std.{decimal, digits_fuel}

pub data IpAddr : Type 0 where
  v4 : ℕ → IpAddr
  v6 : ℕ → IpAddr

abbrev pub is_ipv4 : IpAddr → Bool
is_ipv4 (v4 a) = true
is_ipv4 (v6 a) = false

-- 127.0.0.0/8, and ::1.
abbrev pub is_loopback : IpAddr → Bool
is_loopback (v4 a) = a / 2 ^ 24 == 127
is_loopback (v6 a) = a == 1

abbrev pub is_unspecified : IpAddr → Bool
is_unspecified (v4 a) = a == 0
is_unspecified (v6 a) = a == 0

-- 224.0.0.0/4, and ff00::/8.
abbrev pub is_multicast : IpAddr → Bool
is_multicast (v4 a) = a / 2 ^ 28 == 14
is_multicast (v6 a) = a / 2 ^ 120 == 255

abbrev pub ip_eq : IpAddr → IpAddr → Bool
ip_eq (v4 a) (v4 b) = a == b
ip_eq (v6 a) (v6 b) = a == b
ip_eq _ _ = false

-- `Ipv4Addr::to_string`.
unfoldable pub v4_text : ℕ → Text
v4_text a =
    decimal (a / 2 ^ 24)
    ++ (46
        ∷ (decimal (a / 2 ^ 16 % 256)
            ++ (46 ∷ (decimal (a / 2 ^ 8 % 256) ++ (46 ∷ decimal (a % 256))))))

abbrev pub hex_digit : ℕ → ℕ
hex_digit d = if ltb d 10 then 48 + d else 87 + d

-- `{:x}` of a u16.
abbrev hex16 : ℕ → Text
hex16 n =
    if ltb n 16
    then hex_digit n ∷ []
    else if ltb n 256
    then hex_digit (n / 16) ∷ hex_digit (n % 16) ∷ []
    else if ltb n 4096
    then hex_digit (n / 256) ∷ hex_digit (n / 16 % 16) ∷ hex_digit (n % 16) ∷ []
    else hex_digit (n / 4096)
      ∷ hex_digit (n / 256 % 16)
      ∷ hex_digit (n / 16 % 16)
      ∷ hex_digit (n % 16)
      ∷ []

-- The `k` low 16-bit segments of an address, the highest first.
segments : ℕ → ℕ → List ℕ
segments zero a = []
segments (suc k) a = (a / 2 ^ (16 * k) % 2 ^ 16) ∷ segments k a

-- The first longest run of zero segments: its start and length, with the current run and the best.
zero_run : List ℕ → ℕ → ℕ → ℕ → ℕ → ℕ × ℕ
zero_run [] i cur best_start best_len = (best_start, best_len)
zero_run (s ∷ ss) i cur best_start best_len =
    let cur' = if s == 0 then cur + 1 else 0 in
    let longer = ltb best_len cur' in
    zero_run ss (i + 1) cur' (if longer then i + 1 - cur' else best_start)
      (if longer then cur' else best_len)

join_hex : List ℕ → Text
join_hex [] = []
join_hex (s ∷ []) = hex16 s
join_hex (s ∷ t ∷ ss) = hex16 s ++ (58 ∷ join_hex (t ∷ ss))

compressed : List ℕ → Text
unfolding zero_run join_hex
compressed segs =
    let (from, len) = zero_run segs 0 0 0 0 in
    if ltb 1 len
    then join_hex (take from segs) ++ (codes "::" ++ join_hex (drop (from + len) segs))
    else join_hex segs

-- `Ipv6Addr::to_string`: an IPv4-mapped address ends in its dotted form, and the first longest run of
-- two or more zero segments is written `::`.
unfoldable pub v6_text : ℕ → Text
unfolding segments compressed
v6_text a =
    if a / 2 ^ 32 == 0xffff
    then codes "::ffff:" ++ v4_text (a % 2 ^ 32)
    else compressed (segments 8 a)

unfoldable pub ip_text : IpAddr → Text
ip_text (v4 a) = v4_text a
ip_text (v6 a) = v6_text a

pub record SocketAddr : Type 0 where
  pub ip : IpAddr
  pub port : ℕ

abbrev pub addr_eq : SocketAddr → SocketAddr → Bool
addr_eq a b = ip_eq a.ip b.ip && (a.port == b.port)

-- `SocketAddr::to_string`, for an IPv6 address without scope.
unfoldable pub addr_text : SocketAddr → Text
addr_text a =
    if is_ipv4 a.ip
    then ip_text a.ip ++ (58 ∷ decimal a.port)
    else 91 ∷ (ip_text a.ip ++ (codes "]:" ++ decimal a.port))

-- A character of a number or between numbers: no space and no comma.
abbrev pub IsPlain : ℕ → Type 0
IsPlain c = ((c == 32) ≡ false) × ((c == 44) ≡ false)

digits_fuel-IsPlain :
    (fuel n : ℕ) (acc : Text) → All IsPlain acc → All IsPlain (digits_fuel fuel n acc)
unfolding digits_fuel
digits_fuel-IsPlain zero n acc h = h
digits_fuel-IsPlain (suc fuel) n acc h =
    let h' : All IsPlain ((48 + n % 10) ∷ acc) = ((ground arith, ground arith), h) in
    elim (Bool-cases (ltb n 10)) [
      | inl e ↦ rw e h'
      | inr e ↦ rw e (digits_fuel-IsPlain fuel (n / 10) _ h')
    ]

decimal-IsPlain : (n : ℕ) → All IsPlain (decimal n)
unfolding decimal
decimal-IsPlain n = digits_fuel-IsPlain (n + 1) n [] tt

v4_text-IsPlain : (a : ℕ) → All IsPlain (v4_text a)
unfolding v4_text
v4_text-IsPlain a = All-append IsPlain (decimal (a / 2 ^ 24)) _ (decimal-IsPlain _) (
  (refl, refl),
  All-append IsPlain (decimal (a / 2 ^ 16 % 256)) _ (decimal-IsPlain _) (
    (refl, refl),
    All-append IsPlain (decimal (a / 2 ^ 8 % 256)) _ (decimal-IsPlain _)
        ((refl, refl), decimal-IsPlain (a % 256)),
  ),
)

hex_digit-IsPlain : (d : ℕ) → IsPlain (hex_digit d)
hex_digit-IsPlain d = (ground arith, ground arith)

hex16-IsPlain : (n : ℕ) → All IsPlain (hex16 n)
hex16-IsPlain n = elim (Bool-cases (ltb n 16)) [
  | inl a ↦ rw a (hex_digit-IsPlain n, tt)
  | inr a ↦ elim (Bool-cases (ltb n 256)) [
    | inl b ↦ rw (a, b) (hex_digit-IsPlain (n / 16), (hex_digit-IsPlain (n % 16), tt))
    | inr b ↦ elim (Bool-cases (ltb n 4096)) [
      | inl c ↦
          rw (a, b, c)
            (
              hex_digit-IsPlain (n / 256),
              (hex_digit-IsPlain (n / 16 % 16), (hex_digit-IsPlain (n % 16), tt)),
            )
      | inr c ↦
          rw (a, b, c)
            (
              hex_digit-IsPlain (n / 4096),
              (
                hex_digit-IsPlain (n / 256 % 16),
                (hex_digit-IsPlain (n / 16 % 16), (hex_digit-IsPlain (n % 16), tt)),
              ),
            )
    ]
  ]
]

join_hex-IsPlain : (ss : List ℕ) → All IsPlain (join_hex ss)
unfolding join_hex
join_hex-IsPlain [] = tt
join_hex-IsPlain (s ∷ []) = hex16-IsPlain s
join_hex-IsPlain (s ∷ t ∷ ss) =
    All-append IsPlain (hex16 s) _ (hex16-IsPlain s) ((refl, refl), join_hex-IsPlain (t ∷ ss))

compressed-IsPlain : (segs : List ℕ) → All IsPlain (compressed segs)
unfolding compressed
compressed-IsPlain segs =
    let (from, len) = zero_run segs 0 0 0 0 in
    All-if IsPlain (ltb 1 len) _ _
      (All-append IsPlain (join_hex (take from segs)) _ (join_hex-IsPlain (take from segs))
        ((refl, refl), ((refl, refl), join_hex-IsPlain (drop (from + len) segs))))
      (join_hex-IsPlain segs)

v6_text-IsPlain : (a : ℕ) → All IsPlain (v6_text a)
unfolding v6_text
v6_text-IsPlain a =
    let p : IsPlain 58 = (refl, refl) in
    let f : IsPlain 102 = (refl, refl) in
    let mapped : All IsPlain (codes "::ffff:") = (p, (p, (f, (f, (f, (f, (p, tt))))))) in
    All-if IsPlain (a / 2 ^ 32 == 0xffff) (codes "::ffff:" ++ v4_text (a % 2 ^ 32))
      (compressed (segments 8 a))
      (All-append IsPlain (codes "::ffff:") _ mapped (v4_text-IsPlain (a % 2 ^ 32)))
      (compressed-IsPlain (segments 8 a))

-- The text of an address has no space and no comma.
pub ip_text-IsPlain : (a : IpAddr) → All IsPlain (ip_text a)
unfolding ip_text
ip_text-IsPlain (v4 a) = v4_text-IsPlain a
ip_text-IsPlain (v6 a) = v6_text-IsPlain a

text_program : Unit {0}
unfolding v4_text v6_text decimal
text_program = tt

link_local : v6_text 0xfe80_0000_0000_0000_0000_0000_0000_0001 ≡ codes "fe80::1"
unfolding text_program
link_local = refl

multicast_group : v4_text 0xe0000003 ≡ codes "224.0.0.3"
unfolding text_program
multicast_group = refl
