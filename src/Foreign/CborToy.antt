-- ===== src/Foreign/CborToy.antt =====
-- A concrete encoding that meets the interface `Cbor`: tagged items, read back with fuel.
use weverywhere.Prelude.{
  ℕ, zero, suc, ◌+◌, ◌≤◌, ◌<◌, ◌≡◌, refl, Option, none, some, [], ◌∷◌, ◌++◌, append_assoc, arith,
  Bytes, length, take, drop, take_append, drop_append, append-nil,
}
use weverywhere.Foreign.Cbor.{
  pos, negsuc, Value, Items, Entries, integer, text, bytes, array, map, other, nil, cons, end,
  entry, Cbor,
}

mutual
  print : Value → Bytes
  print (integer (pos n)) = 0 ∷ n ∷ []
  print (integer (negsuc n)) = 1 ∷ n ∷ []
  print (text s) = 2 ∷ length s ∷ s
  print (bytes b) = 3 ∷ length b ∷ b
  print (array xs) = 4 ∷ print_items xs
  print (map es) = 5 ∷ print_entries es
  print (other n) = 6 ∷ n ∷ []

  print_items : Items → Bytes
  print_items nil = 0 ∷ []
  print_items (cons v vs) = 1 ∷ (print v ++ print_items vs)

  print_entries : Entries → Bytes
  print_entries end = 0 ∷ []
  print_entries (entry k v es) = 1 ∷ (print k ++ (print v ++ print_entries es))

mutual
  size : Value → ℕ
  size (integer n) = 1
  size (text s) = 1
  size (bytes b) = 1
  size (array xs) = suc (size_items xs)
  size (map es) = suc (size_entries es)
  size (other n) = 1

  size_items : Items → ℕ
  size_items nil = 1
  size_items (cons v vs) = suc (size v + size_items vs)

  size_entries : Entries → ℕ
  size_entries end = 1
  size_entries (entry k v es) = suc (size k + size v + size_entries es)

infixl 5 ◌>>=◌
abbrev ◌>>=◌ : {A B : Type 0} → Option A → (A → Option B) → Option B
none >>= f = none
some a >>= f = f a

mutual
  parse : ℕ → Bytes → Option (Value × Bytes)
  parse zero b = none
  parse (suc f) [] = none
  parse (suc f) (zero ∷ []) = none
  parse (suc f) (zero ∷ n ∷ r) = some (integer (pos n), r)
  parse (suc f) (suc zero ∷ []) = none
  parse (suc f) (suc zero ∷ n ∷ r) = some (integer (negsuc n), r)
  parse (suc f) (suc (suc zero) ∷ []) = none
  parse (suc f) (suc (suc zero) ∷ n ∷ r) = some (text (take n r), drop n r)
  parse (suc f) (suc (suc (suc zero)) ∷ []) = none
  parse (suc f) (suc (suc (suc zero)) ∷ n ∷ r) = some (bytes (take n r), drop n r)
  parse (suc f) (suc (suc (suc (suc zero))) ∷ r) = do
    (xs, r') ← parse_items f r
    some (array xs, r')
  parse (suc f) (suc (suc (suc (suc (suc zero)))) ∷ r) = do
    (es, r') ← parse_entries f r
    some (map es, r')
  parse (suc f) (suc (suc (suc (suc (suc (suc k))))) ∷ []) = none
  parse (suc f) (suc (suc (suc (suc (suc (suc k))))) ∷ n ∷ r) = some (other n, r)

  parse_items : ℕ → Bytes → Option (Items × Bytes)
  parse_items zero b = none
  parse_items (suc f) [] = none
  parse_items (suc f) (zero ∷ r) = some (nil, r)
  parse_items (suc f) (suc k ∷ r) = do
    (v, r') ← parse f r
    (vs, r'') ← parse_items f r'
    some (cons v vs, r'')

  parse_entries : ℕ → Bytes → Option (Entries × Bytes)
  parse_entries zero b = none
  parse_entries (suc f) [] = none
  parse_entries (suc f) (zero ∷ r) = some (end, r)
  parse_entries (suc f) (suc n ∷ r) = do
    (k, r1) ← parse f r
    (v, r2) ← parse f r1
    (es, r3) ← parse_entries f r2
    some (entry k v es, r3)

size-pos : (v : Value) → 0 < size v
unfolding size
size-pos (integer n) = omega arith
size-pos (text s) = omega arith
size-pos (bytes b) = omega arith
size-pos (array xs) = omega arith
size-pos (map es) = omega arith
size-pos (other n) = omega arith

size_items-pos : (xs : Items) → 0 < size_items xs
unfolding size_items
size_items-pos nil = omega arith
size_items-pos (cons v vs) = omega arith

size_entries-pos : (es : Entries) → 0 < size_entries es
unfolding size_entries
size_entries-pos end = omega arith
size_entries-pos (entry k v es) = omega arith

mutual
  unfolding print size parse

  parse-print : (v : Value) (f : ℕ) (r : Bytes) → size v ≤ f → parse f (print v ++ r) ≡ some (v, r)
  parse-print (integer (pos n)) (suc f) r h = refl
  parse-print (integer (negsuc n)) (suc f) r h = refl
  parse-print (text s) (suc f) r h = rw (take_append s r, drop_append s r)
  parse-print (bytes s) (suc f) r h = rw (take_append s r, drop_append s r)
  parse-print (array xs) (suc f) r h = rw (parse_items-print xs f r (omega arith))
  parse-print (map es) (suc f) r h = rw (parse_entries-print es f r (omega arith))
  parse-print (other n) (suc f) r h = refl
  parse-print v zero r h = absurd (omega (arith, size-pos v))

  parse_items-print :
      (xs : Items) (f : ℕ) (r : Bytes)
      → size_items xs ≤ f
      → parse_items f (print_items xs ++ r) ≡ some (xs, r)
  parse_items-print nil (suc f) r h = refl
  parse_items-print (cons v vs) (suc f) r h = rw (
    append_assoc,
    parse-print v f (print_items vs ++ r) (omega arith),
    parse_items-print vs f r (omega arith),
  )
  parse_items-print xs zero r h = absurd (omega (arith, size_items-pos xs))

  parse_entries-print :
      (es : Entries) (f : ℕ) (r : Bytes)
      → size_entries es ≤ f
      → parse_entries f (print_entries es ++ r) ≡ some (es, r)
  parse_entries-print end (suc f) r h = refl
  parse_entries-print (entry k v es) (suc f) r h = rw (
    append_assoc,
    append_assoc,
    parse-print k f (print v ++ (print_entries es ++ r)) (omega arith),
    parse-print v f (print_entries es ++ r) (omega arith),
    parse_entries-print es f r (omega arith),
  )
  parse_entries-print es zero r h = absurd (omega (arith, size_entries-pos es))

unfoldable pub toy_to_vec : Value → Option Bytes
unfolding size print
toy_to_vec v = some (size v ∷ print v)

unfoldable pub toy_from_slice : Bytes → Option Value
unfolding parse
toy_from_slice [] = none
toy_from_slice (f ∷ r) = do (v, _) ← parse f r; some v

toy_round_trip : (v : Value) → toy_from_slice (size v ∷ print v) ≡ some v
unfolding toy_from_slice
toy_round_trip v =
    let whole : parse (size v) (print v ++ []) ≡ some (v, []) =
      parse-print v (size v) [] (omega arith) in
    let same : print v ++ [] ≡ print v = append-nil (print v) in rw (rw same at whole)

pub toy_law : (v : Value) → (b : Bytes) × (toy_to_vec v ≡ some b) × (toy_from_slice b ≡ some v)
unfolding toy_to_vec
toy_law v = (size v ∷ print v, refl, toy_round_trip v)

abbrev pub toy_cbor : Cbor
toy_cbor = record {
  to_vec = toy_to_vec;
  from_slice = toy_from_slice;
  round_trip = λ v _. toy_law v;
}
