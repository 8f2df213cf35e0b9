-- ===== src/MessageStore/Invariant.antt =====
-- The invariant of the store: bounds, ascending sequence numbers, and the two views of the keys.
use weverywhere.Prelude.{
  ℕ, ◌+◌, ◌^◌, ◌%◌, ◌≤◌, ◌<◌, suc, ◌≡◌, refl, inl, inr, false, List, [], ◌∷◌, ◌++◌, arith, Bytes,
  member, Distinct, member-append, Distinct-snoc, length, last_n, length-last_n, Bool-cases,
  is_empty, ltb,
}
use weverywhere.MessageStore.{
  StoredMessage, MessageStore, Push, new, note_seen, append, push, key, stored,
}
use weverywhere.MessageStore.Seen.{trim_seen-order, trim_seen-agrees, last_n-Distinct}

-- Sequence numbers climb from at least `lo` to below `hi`.
abbrev pub Ascending : ℕ → ℕ → List StoredMessage → Type 0
Ascending lo hi [] = lo ≤ hi
Ascending lo hi (m ∷ ms) = (lo ≤ m.seq) × Ascending (suc m.seq) hi ms

pub record IsValid (s : MessageStore) : Type 0 where
  pub bounded : length s.msgs ≤ s.cap
  pub ascending : Ascending 1 s.next_seq s.msgs
  pub remembered : length s.seen_order ≤ s.seen_cap
  pub distinct : Distinct s.seen_order
  pub agrees : (k : Bytes) → member k s.seen ≡ member k s.seen_order

pub Ascending-le : (lo hi : ℕ) (ms : List StoredMessage) → Ascending lo hi ms → lo ≤ hi
Ascending-le lo hi [] a = a
Ascending-le lo hi (m ∷ ms) a = omega (arith, Ascending-le (suc m.seq) hi ms a.1)

pub Ascending-mono :
    (lo lo' hi : ℕ) (ms : List StoredMessage) → lo' ≤ lo → Ascending lo hi ms → Ascending lo' hi ms
Ascending-mono lo lo' hi [] h a = omega arith
Ascending-mono lo lo' hi (m ∷ ms) h a = (omega arith, a.1)

pub Ascending-snoc :
    (lo hi : ℕ) (ms : List StoredMessage) (p : Push)
    → Ascending lo hi ms
    → Ascending lo (suc hi) (ms ++ stored hi p ∷ [])
Ascending-snoc lo hi [] p a = (a, omega arith)
Ascending-snoc lo hi (m ∷ ms) p a = (a.0, Ascending-snoc (suc m.seq) hi ms p a.1)

pub Ascending-last_n :
    (n lo hi : ℕ) (ms : List StoredMessage) → Ascending lo hi ms → Ascending lo hi (last_n n ms)
unfolding last_n
Ascending-last_n n lo hi [] a = a
Ascending-last_n n lo hi (m ∷ ms) a = elim (Bool-cases (ltb n (length (m ∷ ms)))) [
  | inl over ↦
      rw over (Ascending-last_n n lo hi ms (Ascending-mono (suc m.seq) lo hi ms (omega arith) a.1))
  | inr fits ↦ rw fits a
]

pub new-IsValid : (n : ℕ) → IsValid (new n)
unfolding new
new-IsValid n = record {
  bounded = omega arith;
  ascending = omega arith;
  remembered = omega arith;
  distinct = tt;
  agrees = λ k. refl;
}

-- Storing a message keeps the invariant while the u64 counter has room.
append-IsValid :
    {s : MessageStore} (p : Push) → s.next_seq + 1 < 2 ^ 64 → IsValid s → IsValid (append s p).0
unfolding append
append-IsValid {s} p room v =
    let up : (s.next_seq + 1) % 2 ^ 64 ≡ suc s.next_seq = omega arith in
    record {
      bounded = length-last_n s.cap (s.msgs ++ stored s.next_seq p ∷ []);
      ascending = rw up (
          Ascending-last_n s.cap 1 (suc s.next_seq) (s.msgs ++ stored s.next_seq p ∷ [])
            (Ascending-snoc 1 s.next_seq s.msgs p v.ascending));
      remembered = v.remembered;
      distinct = v.distinct;
      agrees = v.agrees;
    }

-- Noting a new key keeps set and queue in step and within the window.
note_seen-IsValid :
    {s : MessageStore} (k : Bytes) → member k s.seen ≡ false → IsValid s → IsValid (note_seen s k)
unfolding note_seen
note_seen-IsValid {s} k fresh v =
    let order = s.seen_order ++ k ∷ [] in
    let d : Distinct order = Distinct-snoc s.seen_order k v.distinct (ground (arith, v.agrees k)) in
    record {
      bounded = v.bounded;
      ascending = v.ascending;
      remembered = rw trim_seen-order (length-last_n s.seen_cap order);
      distinct = rw trim_seen-order (last_n-Distinct s.seen_cap order d);
      agrees = λ j. rw trim_seen-order (
          trim_seen-agrees s.seen_cap order (k ∷ s.seen) d
            (λ i. ground (arith, v.agrees i, member-append i s.seen_order (k ∷ []))) j);
    }

-- Every push keeps the store valid: at most `cap` messages in ascending sequence order below
-- `next_seq`, and at most `seen_cap` distinct keys that the set and the queue agree on. The u64
-- counter must not be about to wrap.
pub push-IsValid :
    {s : MessageStore} (p : Push) → s.next_seq + 1 < 2 ^ 64 → IsValid s → IsValid (push s p).0
unfolding push
push-IsValid {s} p room v = elim (Bool-cases (is_empty p.id)) [
  | inl plain ↦ rw plain (append-IsValid p room v)
  | inr named ↦ elim (Bool-cases (member (key p) s.seen)) [
    | inl again ↦ rw (named, again) v
    | inr fresh ↦ rw (named, fresh) (append-IsValid p room (note_seen-IsValid (key p) fresh v))
  ]
]
