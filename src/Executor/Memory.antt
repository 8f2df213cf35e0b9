-- ===== src/Executor/Memory.antt =====
-- `write_guest_bytes` and `read_guest_bytes` of src/executor/mod.rs: the linear memory of a program.
use weverywhere.Prelude.{
  ℕ, ◌+◌, ◌-◌, ◌≤◌, ◌^◌, min, ◌≡◌, refl, sym, ap, ◌∙◌, true, ◌++◌, Option, none, some, arith, Bytes,
  leb, if◌then◌else◌, take, drop, length, subst, length-append, length-take, length-drop,
  take_append, drop_append, append_assoc,
}
use weverywhere.Foreign.Cbor.{ℤ, pos, negsuc}

-- `i.max(0) as usize`.
abbrev pub max0 : ℤ → ℕ
max0 (pos n) = n
max0 (negsuc n) = 0

-- `i as usize`, on 64 bits.
abbrev pub as_usize : ℤ → ℕ
as_usize (pos n) = n
as_usize (negsuc n) = 2 ^ 64 - 1 - n

-- The memory is `none` if the module exports none; the result `none` is a trap.
unfoldable pub write_guest_bytes : Option Bytes → ℤ → ℤ → Bytes → Option (Bytes × ℕ)
write_guest_bytes none ptr cap src = none
write_guest_bytes (some mem) ptr cap src =
    let n = min (length src) (max0 cap) in
    let start = max0 ptr in
    if leb (start + n) (length mem)
    then some (take start mem ++ (take n src ++ drop (start + n) mem), n)
    else none

unfoldable pub read_guest_bytes : Option Bytes → ℤ → ℤ → Option Bytes
read_guest_bytes none ptr len = none
read_guest_bytes (some mem) ptr len =
    let start = max0 ptr in
    let n = max0 len in
    if leb (start + n) (length mem) then some (take n (drop start mem)) else none

take-prefix : (n : ℕ) (xs ys : Bytes) → n ≡ length xs → take n (xs ++ ys) ≡ xs
take-prefix n xs ys e = rw e (take_append xs ys)

drop-prefix : (n : ℕ) (xs ys : Bytes) → n ≡ length xs → drop n (xs ++ ys) ≡ ys
drop-prefix n xs ys e = rw e (drop_append xs ys)

-- What splicing `mid` in at `start` leaves.
splice :
    (mem mid : Bytes) (start : ℕ)
    → start + length mid ≤ length mem
    → let after = take start mem ++ (mid ++ drop (start + length mid) mem) in
      (length after ≡ length mem)
      × (take start after ≡ take start mem)
      × (drop (start + length mid) after ≡ drop (start + length mid) mem)
      × (take (length mid) (drop start after) ≡ mid)
splice mem mid start room =
    let head = take start mem in
    let tail = drop (start + length mid) mem in
    let size : start ≡ length head = omega (arith, length-take start mem) in
    let both : start + length mid ≡ length (head ++ mid) =
      omega (arith, length-take start mem, length-append head mid) in
    (
      omega (
        arith,
        length-take start mem,
        length-append head (mid ++ tail),
        length-append mid tail,
        length-drop (start + length mid) mem,
      ),
      take-prefix start head (mid ++ tail) size,
      ap (drop (start + length mid)) (sym (append_assoc head mid tail))
          ∙ drop-prefix (start + length mid) (head ++ mid) tail both,
      ap (take (length mid)) (drop-prefix start head (mid ++ tail) size) ∙ take_append mid tail,
    )

write_guest_bytes-splices :
    (mem src after : Bytes) (ptr cap : ℤ) (n : ℕ)
    → write_guest_bytes (some mem) ptr cap src ≡ some (after, n)
    → (n ≡ min (length src) (max0 cap))
      × (max0 ptr + n ≤ length mem)
      × (after ≡ take (max0 ptr) mem ++ (take n src ++ drop (max0 ptr + n) mem))
unfolding write_guest_bytes
write_guest_bytes-splices mem src after ptr cap n h = ground arith

-- A write that does not trap writes the first bytes of its source, as many as the capacity allows. It
-- keeps the size of the memory and every byte outside of the range, and the written range reads
-- back.
pub write_guest_bytes-reads_back :
    (mem src after : Bytes) (ptr cap : ℤ) (n : ℕ)
    → write_guest_bytes (some mem) ptr cap src ≡ some (after, n)
    → (n ≡ min (length src) (max0 cap))
      × (length after ≡ length mem)
      × (take (max0 ptr) after ≡ take (max0 ptr) mem)
      × (drop (max0 ptr + n) after ≡ drop (max0 ptr + n) mem)
      × (read_guest_bytes (some after) ptr (pos n) ≡ some (take n src))
unfolding write_guest_bytes read_guest_bytes
write_guest_bytes-reads_back mem src after ptr cap n h =
    let (count, room, same) = write_guest_bytes-splices mem src after ptr cap n h in
    let size : length (take n src) ≡ n = omega (arith, length-take n src) in
    let (whole, before, behind, mid) =
      subst
        (λ (k : ℕ).
          let a = take (max0 ptr) mem ++ (take n src ++ drop (max0 ptr + k) mem) in
          (length a ≡ length mem)
          × (take (max0 ptr) a ≡ take (max0 ptr) mem)
          × (drop (max0 ptr + k) a ≡ drop (max0 ptr + k) mem)
          × (take k (drop (max0 ptr) a) ≡ take n src))
        size (splice mem (take n src) (max0 ptr) (omega arith)) in
    let fits : leb (max0 ptr + n) (length mem) ≡ true = ground arith in
    rw same (count, whole, before, behind, rw (whole, fits, mid) refl)
