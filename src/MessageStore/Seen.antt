-- ===== src/MessageStore/Seen.antt =====
-- The bounded memory of keys: the queue `seen_order` and the set `seen` stay in step.
use weverywhere.Prelude.{
  ℕ, ◌≤◌, suc, ◌≡◌, refl, inl, inr, true, List, [], ◌∷◌, ◌++◌, arith, Bytes, ltb, member, remove,
  Distinct, member-append, member-remove, length, length-append, last_n, bytes_eq_iff, Bool-cases,
}
use weverywhere.MessageStore.{trim_seen}

pub trim_seen-order :
    (n_max : ℕ) (order seen : List Bytes) → (trim_seen n_max order seen).0 ≡ last_n n_max order
unfolding trim_seen last_n
trim_seen-order n_max [] seen = refl
trim_seen-order n_max (x ∷ order) seen = ground (arith, trim_seen-order n_max order (remove x seen))

-- Where set and queue agreed, they agree after the oldest keys are dropped.
pub trim_seen-agrees :
    (n_max : ℕ) (order seen : List Bytes)
    → Distinct order
    → ((k : Bytes) → member k seen ≡ member k order)
    → (k : Bytes) → member k (trim_seen n_max order seen).1 ≡ member k (last_n n_max order)
unfolding trim_seen last_n
trim_seen-agrees n_max [] seen d same k = same k
trim_seen-agrees n_max (x ∷ order) seen d same k =
    elim (Bool-cases (ltb n_max (length (x ∷ order)))) [
      | inl over ↦ rw over (
          trim_seen-agrees n_max order (remove x seen) d.1
            (λ j. ground (arith, member-remove j x seen, same j, bytes_eq_iff x j, d.0)) k)
      | inr fits ↦ rw fits (same k)
    ]

pub last_n-Distinct : (n_max : ℕ) (xs : List Bytes) → Distinct xs → Distinct (last_n n_max xs)
unfolding last_n
last_n-Distinct n_max [] d = tt
last_n-Distinct n_max (x ∷ xs) d = ground (arith, last_n-Distinct n_max xs d.1)

-- A key among the last `n` is among the last `n + 1` after one more key has come.
pub member-last_n_snoc :
    (n : ℕ) (k j : Bytes) (xs : List Bytes)
    → member k (last_n n xs) ≡ true
    → member k (last_n (suc n) (xs ++ j ∷ [])) ≡ true
unfolding last_n
member-last_n_snoc n k j [] h = ground arith
member-last_n_snoc n k j (x ∷ xs) h =
    ground
      (arith, member-last_n_snoc n k j xs, length-append xs (j ∷ []), member-append k xs (j ∷ []))

pub last_n-last_n :
    (n n_max : ℕ) (xs : List Bytes) → n ≤ n_max → last_n n (last_n n_max xs) ≡ last_n n xs
unfolding last_n
last_n-last_n n n_max [] h = refl
last_n-last_n n n_max (x ∷ xs) h = ground (arith, last_n-last_n n n_max xs)

pub member_of_last_n :
    (n : ℕ) (k : Bytes) (xs : List Bytes) → member k (last_n n xs) ≡ true → member k xs ≡ true
unfolding last_n
member_of_last_n n k [] h = h
member_of_last_n n k (x ∷ xs) h = ground (arith, member_of_last_n n k xs)
