-- ===== src/Prelude/Lists.antt =====
-- Lists measured and indexed by native numbers, membership of byte strings, and bounded windows.
use Prim.Native.Nat.{ℕ, zero, suc, ◌+◌, ◌-◌, ◌≤◌, min}
use mathlib.Core.Path.{◌≡◌, refl, ap, subst}
use mathlib.Core.Logic.{◌⊎◌, inl, inr}
use mathlib.Core.Bool.{Bool, true, false, ◌||◌}
use mathlib.Core.List.{List, [], ◌∷◌, ◌++◌}
use mathlib.Core.Option.{Option, none, some}
use native.Mathlib.Omega.{arith}
use weverywhere.Prelude.Tests.{ltb, if◌then◌else◌, bytes_eq, bytes_eq_iff}

-- A byte string and a text are lists of numbers: the bytes, or the code points.
abbrev pub Bytes : Type 0
Bytes = List ℕ

abbrev pub Text : Type 0
Text = List ℕ

module _ {ℓ} {A : Type ℓ} where
  abbrev pub length : List A → ℕ
  length [] = 0
  length (x ∷ xs) = suc (length xs)

  abbrev pub get_elem? : List A → ℕ → Option A
  get_elem? [] i = none
  get_elem? (x ∷ xs) zero = some x
  get_elem? (x ∷ xs) (suc i) = get_elem? xs i

  abbrev pub take : ℕ → List A → List A
  take zero xs = []
  take (suc n) [] = []
  take (suc n) (x ∷ xs) = x ∷ take n xs

  abbrev pub drop : ℕ → List A → List A
  drop zero xs = xs
  drop (suc n) [] = []
  drop (suc n) (x ∷ xs) = drop n xs

  abbrev pub replicate : ℕ → A → List A
  replicate zero a = []
  replicate (suc n) a = a ∷ replicate n a

  abbrev pub is_empty : List A → Bool
  is_empty [] = true
  is_empty (x ∷ xs) = false

  abbrev pub any : (A → Bool) → List A → Bool
  any p [] = false
  any p (x ∷ xs) = p x || any p xs

  abbrev pub keep : (A → Bool) → List A → List A
  keep p [] = []
  keep p (x ∷ xs) = if p x then x ∷ keep p xs else keep p xs

  abbrev pub find : (A → Bool) → List A → Option A
  find p [] = none
  find p (x ∷ xs) = if p x then some x else find p xs

  pub length-append : (xs ys : List A) → length (xs ++ ys) ≡ length xs + length ys
  length-append [] ys = omega arith
  length-append (x ∷ xs) ys = omega (arith, length-append xs ys)

  pub length-take : (n : ℕ) (xs : List A) → length (take n xs) ≡ min n (length xs)
  length-take zero xs = omega arith
  length-take (suc n) [] = omega arith
  length-take (suc n) (x ∷ xs) = omega (arith, length-take n xs)

  pub length-drop : (n : ℕ) (xs : List A) → length (drop n xs) ≡ length xs - n
  length-drop zero xs = omega arith
  length-drop (suc n) [] = omega arith
  length-drop (suc n) (x ∷ xs) = omega (arith, length-drop n xs)

  pub take-append-drop : (n : ℕ) (xs : List A) → take n xs ++ drop n xs ≡ xs
  take-append-drop zero xs = refl
  take-append-drop (suc n) [] = refl
  take-append-drop (suc n) (x ∷ xs) = ap (◌∷◌ x) (take-append-drop n xs)

  pub take_of_length-le : (n : ℕ) (xs : List A) → length xs ≤ n → take n xs ≡ xs
  take_of_length-le zero [] short = refl
  take_of_length-le (suc n) [] short = refl
  take_of_length-le (suc n) (y ∷ ys) short = ap (◌∷◌ y) (take_of_length-le n ys (omega arith))
  take_of_length-le zero (y ∷ ys) short = absurd (omega arith)

  pub take_append : (xs ys : List A) → take (length xs) (xs ++ ys) ≡ xs
  take_append [] ys = refl
  take_append (x ∷ xs) ys = ap (◌∷◌ x) (take_append xs ys)

  pub drop_append : (xs ys : List A) → drop (length xs) (xs ++ ys) ≡ ys
  drop_append [] ys = refl
  drop_append (x ∷ xs) ys = drop_append xs ys

  pub length-replicate : (n : ℕ) (a : A) → length (replicate n a) ≡ n
  length-replicate zero a = refl
  length-replicate (suc n) a = ap suc (length-replicate n a)

-- The loop `while len > cap { pop_front }` of a bounded queue.
module _ {ℓ} {A : Type ℓ} where
  unfoldable pub last_n : ℕ → List A → List A
  last_n cap [] = []
  last_n cap (x ∷ xs) = if ltb cap (length (x ∷ xs)) then last_n cap xs else x ∷ xs

  pub length-last_n : (cap : ℕ) (xs : List A) → length (last_n cap xs) ≤ cap
  unfolding last_n
  length-last_n cap [] = omega arith
  length-last_n cap (x ∷ xs) = ground (arith, length-last_n cap xs)

  pub last_n_of_le : (cap : ℕ) (xs : List A) → length xs ≤ cap → last_n cap xs ≡ xs
  unfolding last_n
  last_n_of_le cap [] h = refl
  last_n_of_le cap (x ∷ xs) h = ground arith

  -- Only the last `cap` items of what came before matter.
  pub last_n-append :
      (cap : ℕ) (xs ys : List A) → last_n cap (last_n cap xs ++ ys) ≡ last_n cap (xs ++ ys)
  unfolding last_n
  last_n-append cap [] ys = refl
  last_n-append cap (x ∷ xs) ys =
      ground (arith, last_n-append cap xs ys, length-append xs ys, length-append (x ∷ xs) ys)

-- A predicate by recursion computes to tuples, which the tactics read and build.
abbrev pub All {ℓ κ} : {A : Type ℓ} → (A → Type κ) → List A → Type κ
All P [] = Unit
All P (x ∷ xs) = P x × All P xs

pub All-append {ℓ κ} :
    {A : Type ℓ} (P : A → Type κ) (xs ys : List A) → All P xs → All P ys → All P (xs ++ ys)
All-append P [] ys before after = after
All-append P (x ∷ xs) ys before after = (before.0, All-append P xs ys before.1 after)

pub All-if {ℓ κ} :
    {A : Type ℓ} (P : A → Type κ) (b : Bool) (xs ys : List A)
    → All P xs
    → All P ys
    → All P (if b then xs else ys)
All-if P true xs ys p q = p
All-if P false xs ys p q = q

pub All-map {ℓ κ ι} :
    {A : Type ℓ} {P : A → Type κ} {Q : A → Type ι} (f : (a : A) → P a → Q a) (xs : List A)
    → All P xs
    → All Q xs
All-map f [] h = tt
All-map f (x ∷ xs) h = (f x h.0, All-map f xs h.1)

-- An item of a list.
pub data In {ℓ} {A : Type ℓ} (a : A) : List A → Type ℓ where
  at_head : {x : A} {xs : List A} → a ≡ x → In a (x ∷ xs)
  in_tail : {x : A} {xs : List A} → In a xs → In a (x ∷ xs)

pub In-left {ℓ} : {A : Type ℓ} (a : A) (xs ys : List A) → In a xs → In a (xs ++ ys)
In-left a [] ys m = elim m [ ]
In-left a (x ∷ xs) ys (at_head e) = at_head e
In-left a (x ∷ xs) ys (in_tail m) = in_tail (In-left a xs ys m)

pub In-right {ℓ} : {A : Type ℓ} (a : A) (xs ys : List A) → In a ys → In a (xs ++ ys)
In-right a [] ys m = m
In-right a (x ∷ xs) ys m = in_tail (In-right a xs ys m)

pub In-append {ℓ} : {A : Type ℓ} (a : A) (xs ys : List A) → In a (xs ++ ys) → In a xs ⊎ In a ys
In-append a [] ys m = inr m
In-append a (x ∷ xs) ys (at_head e) = inl (at_head e)
In-append a (x ∷ xs) ys (in_tail m) = elim (In-append a xs ys m) [
  | inl l ↦ inl (in_tail l)
  | inr r ↦ inr r
]

pub All-In {ℓ κ} :
    {A : Type ℓ} (P : A → Type κ) (xs : List A) → ((a : A) → In a xs → P a) → All P xs
All-In P [] h = tt
All-In P (x ∷ xs) h = (h x (at_head refl), All-In P xs (λ a m. h a (in_tail m)))

-- `flat_map(f).collect()`.
abbrev pub flat_map {ℓ κ} : {A : Type ℓ} {B : Type κ} → (A → List B) → List A → List B
flat_map f [] = []
flat_map f (x ∷ xs) = f x ++ flat_map f xs

pub In-flat_map {ℓ κ} :
    {A : Type ℓ} {B : Type κ} (f : A → List B) (b : B) (xs : List A)
    → In b (flat_map f xs)
    → (a : A) × In a xs × In b (f a)
In-flat_map f b [] m = elim m [ ]
In-flat_map f b (x ∷ xs) m = elim (In-append b (f x) (flat_map f xs) m) [
  | inl here ↦ (x, at_head refl, here)
  | inr later ↦ let (a, among, found) = In-flat_map f b xs later in (a, in_tail among, found)
]

pub flat_map-In {ℓ κ} :
    {A : Type ℓ} {B : Type κ} (f : A → List B) (a : A) (b : B) (xs : List A)
    → In a xs
    → In b (f a)
    → In b (flat_map f xs)
flat_map-In f a b [] among found = elim among [ ]
flat_map-In f a b (x ∷ xs) (at_head e) found =
    In-left b (f x) (flat_map f xs) (subst (λ y. In b (f y)) e found)
flat_map-In f a b (x ∷ xs) (in_tail among) found =
    In-right b (f x) (flat_map f xs) (flat_map-In f a b xs among found)

pub All-flat_map {ℓ κ ι} :
    {A : Type ℓ} {B : Type κ} (P : B → Type ι) (f : A → List B) (xs : List A)
    → ((a : A) → All P (f a))
    → All P (flat_map f xs)
All-flat_map P f [] h = tt
All-flat_map P f (x ∷ xs) h = All-append P (f x) (flat_map f xs) (h x) (All-flat_map P f xs h)

-- A set of byte strings kept as a list.
abbrev pub member : Bytes → List Bytes → Bool
member k [] = false
member k (x ∷ xs) = bytes_eq x k || member k xs

abbrev pub remove : Bytes → List Bytes → List Bytes
remove k [] = []
remove k (x ∷ xs) = if bytes_eq x k then remove k xs else x ∷ remove k xs

-- No byte string stands in the list twice.
abbrev pub Distinct : List Bytes → Type 0
Distinct [] = Unit
Distinct (x ∷ xs) = (member x xs ≡ false) × Distinct xs

pub member-append :
    (k : Bytes) (xs ys : List Bytes) → member k (xs ++ ys) ≡ (member k xs || member k ys)
member-append k [] ys = refl
member-append k (x ∷ xs) ys = ground (arith, member-append k xs ys)

pub member-remove :
    (k j : Bytes) (xs : List Bytes)
    → member k (remove j xs) ≡ (if bytes_eq j k then false else member k xs)
member-remove k j [] = ground arith
member-remove k j (x ∷ xs) =
    ground (arith, member-remove k j xs, bytes_eq_iff x j, bytes_eq_iff x k, bytes_eq_iff j k)

pub Distinct-snoc :
    (xs : List Bytes) (k : Bytes) → Distinct xs → member k xs ≡ false → Distinct (xs ++ k ∷ [])
Distinct-snoc [] k d h = (refl, tt)
Distinct-snoc (x ∷ xs) k d h = (
  ground (arith, member-append x xs (k ∷ []), bytes_eq_iff x k, bytes_eq_iff k x),
  Distinct-snoc xs k d.1 (ground arith),
)
