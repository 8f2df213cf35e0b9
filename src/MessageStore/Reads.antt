-- ===== src/MessageStore/Reads.antt =====
-- Reading in portions: a reader's high-water mark loses and repeats nothing.
use weverywhere.Prelude.{ℕ, ◌≤◌, ◌<◌, suc, ◌≡◌, refl, List, [], ◌∷◌, ◌++◌, arith, ltb, leb, keep}
use weverywhere.MessageStore.{StoredMessage, MessageStore, read_after}
use weverywhere.MessageStore.Invariant.{IsValid, Ascending}

-- The part of a reading that ends at sequence number `b`.
abbrev pub up_to : ℕ → List StoredMessage → List StoredMessage
up_to b = keep λ m. leb m.seq b

keep-above :
    (b lo hi : ℕ) (ms : List StoredMessage)
    → b < lo
    → Ascending lo hi ms
    → (keep (λ m. ltb b m.seq) ms ≡ ms) × (up_to b ms ≡ [])
keep-above b lo hi [] h a = (refl, refl)
keep-above b lo hi (m ∷ ms) h a = ground (arith, keep-above b (suc m.seq) hi ms)

keep-split :
    (a b lo hi : ℕ) (ms : List StoredMessage)
    → a ≤ b
    → Ascending lo hi ms
    → keep (λ m. ltb a m.seq) ms
      ≡ up_to b (keep (λ m. ltb a m.seq) ms) ++ keep (λ m. ltb b m.seq) ms
keep-split a b lo hi [] h asc = refl
keep-split a b lo hi (m ∷ ms) h asc = ground (
  arith,
  keep-split a b (suc m.seq) hi ms,
  keep-above a (suc m.seq) hi ms,
  keep-above b (suc m.seq) hi ms,
)

-- Reading after `a` gives what lies up to `b`, followed by what reading after `b` gives: a reader
-- that stops at `b` and goes on from there misses nothing and sees nothing twice.
pub read_after-split :
    (s : MessageStore) (a b : ℕ)
    → IsValid s
    → a ≤ b
    → read_after s a ≡ up_to b (read_after s a) ++ read_after s b
unfolding read_after
read_after-split s a b v h = keep-split a b 1 s.next_seq s.msgs h v.ascending
