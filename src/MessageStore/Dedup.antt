-- ===== src/MessageStore/Dedup.antt =====
-- The several network copies of one send are recorded once.
use weverywhere.Prelude.{
  ℕ, ◌+◌, ◌^◌, ◌≤◌, ◌<◌, suc, ◌≡◌, refl, inl, inr, ◌≢◌, ◌⊎◌, true, false, List, [], ◌∷◌, ◌++◌,
  arith, Bytes, member, length, length-append, last_n, Bool-cases, is_empty, take_append,
  drop_append, bytes_eq_refl, sym, ◌∙◌,
}
use weverywhere.MessageStore.{MessageStore, Push, note_seen, append, push, push_all, key}
use weverywhere.MessageStore.Seen.{
  trim_seen-order, member-last_n_snoc, last_n-last_n, member_of_last_n,
}
use weverywhere.MessageStore.Invariant.{IsValid, push-IsValid}
use weverywhere.MessageStore.Window.{push-Pushed}

-- What a push does to the queue of keys.
abbrev Queued : MessageStore → MessageStore → Bytes → Type 0
Queued s t k =
    ((t.seen_order ≡ s.seen_order) ⊎ (t.seen_order ≡ last_n s.seen_cap (s.seen_order ++ k ∷ [])))
    × (t.seen_cap ≡ s.seen_cap)

push-Queued : (s : MessageStore) (p : Push) → Queued s (push s p).0 (key p)
unfolding push append note_seen
push-Queued s p = elim (Bool-cases (is_empty p.id)) [
  | inl plain ↦ rw plain (inl refl, refl)
  | inr named ↦ elim (Bool-cases (member (key p) s.seen)) [
    | inl again ↦ rw (named, again) (inl refl, refl)
    | inr fresh ↦ rw (named, fresh) (inr (trim_seen-order _ _ _), refl)
  ]
]

member-last_n-suc :
    (n : ℕ) (k : Bytes) (xs : List Bytes)
    → member k (last_n n xs) ≡ true
    → member k (last_n (suc n) xs) ≡ true
unfolding last_n
member-last_n-suc n k [] h = h
member-last_n-suc n k (x ∷ xs) h = ground (arith, member-last_n-suc n k xs, member_of_last_n n k xs)

-- The key is among the `n` newest of the queue.
abbrev Recent : Bytes → ℕ → MessageStore → Type 0
Recent k n s = member k (last_n n s.seen_order) ≡ true

-- One push pushes every remembered key back by at most one place.
push-Recent :
    (s : MessageStore) (p : Push) (k : Bytes) (n : ℕ)
    → n < s.seen_cap
    → Recent k n s
    → Recent k (suc n) (push s p).0
push-Recent s p k n h r = elim (push-Queued s p).0 [
  | inl same ↦ rw same (member-last_n-suc n k s.seen_order r)
  | inr grown ↦
      rw (grown, last_n-last_n (suc n) s.seen_cap (s.seen_order ++ key p ∷ []) h)
        (member-last_n_snoc n k (key p) s.seen_order r)
]

push_all-Recent :
    (s : MessageStore) (ps : List Push) (k : Bytes) (n : ℕ)
    → n + length ps ≤ s.seen_cap
    → Recent k n s
    → Recent k (n + length ps) (push_all s ps)
unfolding push_all
push_all-Recent s [] k n h r = let e : n + 0 ≡ n = omega arith in rw e r
push_all-Recent s (p ∷ ps) k n h r =
    let e : n + suc (length ps) ≡ suc n + length ps = omega arith in
    rw e (
      push_all-Recent (push s p).0 ps k (suc n) (omega (arith, (push-Queued s p).1))
        (push-Recent s p k n (omega arith) r))

last_n-newest : (k : Bytes) (xs : List Bytes) → member k (last_n 1 (xs ++ k ∷ [])) ≡ true
unfolding last_n
last_n-newest k [] = ground (arith, bytes_eq_refl k)
last_n-newest k (x ∷ xs) = ground (arith, last_n-newest k xs, length-append xs (k ∷ []))

-- A push that is recorded leaves its key newest.
recorded-Recent :
    (s : MessageStore) (p : Push)
    → 0 < s.seen_cap
    → is_empty p.id ≡ false
    → (push s p).1 ≢ 0
    → Recent (key p) 1 (push s p).0
unfolding push append note_seen
recorded-Recent s p pos named fresh = elim (Bool-cases (member (key p) s.seen)) [
  | inl again ↦ absurd (fresh (rw (named, again)))
  | inr new ↦
      rw (named, new, trim_seen-order, last_n-last_n 1 s.seen_cap (s.seen_order ++ key p ∷ []) pos)
        (last_n-newest (key p) s.seen_order)
]

-- A repeat is dropped: the store stays as it is and the answer is 0.
push-seen :
    (s : MessageStore) (p : Push)
    → is_empty p.id ≡ false
    → member (key p) s.seen ≡ true
    → push s p ≡ (s, 0)
unfolding push
push-seen s p named again = rw (named, again)

push_all-IsValid :
    (s : MessageStore) (ps : List Push)
    → IsValid s
    → s.next_seq + length ps < 2 ^ 64
    → IsValid (push_all s ps)
unfolding push_all
push_all-IsValid s [] v room = v
push_all-IsValid s (p ∷ ps) v room =
    push_all-IsValid (push s p).0 ps (push-IsValid p (omega arith) v)
      (elim (push-Pushed s p (omega arith)) [
        | inl (_, same) ↦ rw same (omega arith)
        | inr (_, _, next, _) ↦ omega arith
      ])

-- After a message was recorded under a (sender, id) key, a later copy with the same key is dropped,
-- whatever its name, text and time are: the store is unchanged and 0 is returned. Fewer than
-- `seen_cap` other pushes may have come between, the id is not empty, the store was valid, and the
-- u64 counter has room.
pub push-duplicate :
    (s : MessageStore) (p q : Push) (ps : List Push)
    → IsValid s
    → s.next_seq + suc (length ps) < 2 ^ 64
    → is_empty p.id ≡ false
    → (push s p).1 ≢ 0
    → length ps < s.seen_cap
    → q.from_pubkey ≡ p.from_pubkey
    → q.id ≡ p.id
    → push (push_all s (p ∷ ps)) q ≡ (push_all s (p ∷ ps), 0)
unfolding push_all
push-duplicate s p q ps v room named fresh short pk id =
    let s' = (push s p).0 in
    let t = push_all s' ps in
    let same : key q ≡ key p = cc in
    let recent : Recent (key p) (1 + length ps) t =
      push_all-Recent s' ps (key p) 1 (omega (arith, (push-Queued s p).1))
        (recorded-Recent s p (omega arith) named fresh) in
    let valid : IsValid t = push_all-IsValid s (p ∷ ps) v room in
    push-seen t q (rw id named) (
      rw (same, valid.agrees (key p))
        (member_of_last_n (1 + length ps) (key p) t.seen_order recent))

-- Keys of public keys of one length are told apart: different (sender, id) pairs have different
-- keys, so a message is never dropped as a copy of another sender's.
pub key-injective :
    (p q : Push)
    → length p.from_pubkey ≡ length q.from_pubkey
    → key p ≡ key q
    → (p.from_pubkey ≡ q.from_pubkey) × (p.id ≡ q.id)
key-injective p q len same = (
  sym (take_append p.from_pubkey p.id) ∙ (rw (len, same) (take_append q.from_pubkey q.id)),
  sym (drop_append p.from_pubkey p.id) ∙ (rw (len, same) (drop_append q.from_pubkey q.id)),
)
