-- ===== src/MessageStore/Window.antt =====
-- The store as a window on an unbounded log, and what a polling reader gets.
use weverywhere.Prelude.{
  ℕ, ◌+◌, ◌-◌, ◌^◌, ◌≤◌, ◌<◌, suc, ◌≡◌, refl, inl, inr, ◌⊎◌, true, false, Bool, List, [], ◌∷◌, ◌++◌,
  arith, member, length, last_n, last_n-append, last_n_of_le, length-last_n, Bool-cases, is_empty,
  ltb, ◌==◌, lt→ltb, keep, All, append_assoc, append-nil, if◌then◌else◌, sym, ap, ◌∙◌,
}
use weverywhere.MessageStore.{
  StoredMessage, MessageStore, Push, note_seen, append, push, push_all, key, stored, read_after,
}
use weverywhere.MessageStore.Invariant.{IsValid, Ascending, Ascending-le}

-- What a run of pushes records: the unbounded log, oldest first.
unfoldable pub recorded : MessageStore → List Push → List StoredMessage
recorded s [] = []
recorded s (p ∷ ps) =
    let rest = recorded (push s p).0 ps in
    if (push s p).1 == 0 then rest else stored (push s p).1 p ∷ rest

-- A push either drops a duplicate and changes nothing, or records one message.
abbrev pub Pushed : MessageStore → Push → Type 0
Pushed s p =
    (((push s p).1 ≡ 0) × ((push s p).0 ≡ s))
    ⊎ (((push s p).1 ≡ s.next_seq)
        × ((push s p).0.msgs ≡ last_n s.cap (s.msgs ++ stored s.next_seq p ∷ []))
        × ((push s p).0.next_seq ≡ suc s.next_seq)
        × ((push s p).0.cap ≡ s.cap))

pub push-Pushed : (s : MessageStore) (p : Push) → s.next_seq + 1 < 2 ^ 64 → Pushed s p
unfolding push append note_seen
push-Pushed s p room = elim (Bool-cases (is_empty p.id)) [
  | inl plain ↦ rw plain (inr (refl, refl, omega arith, refl))
  | inr named ↦ elim (Bool-cases (member (key p) s.seen)) [
    | inl again ↦ rw (named, again) (inl (refl, refl))
    | inr fresh ↦ rw (named, fresh) (inr (refl, refl, omega arith, refl))
  ]
]

-- The messages of the store after any run of pushes are the last `cap` of the log: those that were
-- there, followed by those that the run recorded. The u64 counter must have room for the run.
pub push_all-window :
    (s : MessageStore) (ps : List Push)
    → 0 < s.next_seq
    → length s.msgs ≤ s.cap
    → s.next_seq + length ps < 2 ^ 64
    → (push_all s ps).msgs ≡ last_n s.cap (s.msgs ++ recorded s ps)
unfolding push_all recorded
push_all-window s [] pos fits room = rw append-nil (sym (last_n_of_le s.cap s.msgs fits))
push_all-window s (p ∷ ps) pos fits room = elim (push-Pushed s p (omega arith)) [
  | inl (dup, same) ↦ rw (dup, same, push_all) (push_all-window s ps pos fits (omega arith))
  | inr (seq, ms, next, same) ↦
      let s' = (push s p).0 in
      let ih : (push_all s' ps).msgs ≡ last_n s'.cap (s'.msgs ++ recorded s' ps) =
        push_all-window s' ps (omega arith)
          (rw (ms, same) (length-last_n s.cap (s.msgs ++ stored s.next_seq p ∷ [])))
          (omega arith) in
      let counted : ((push s p).1 == 0) ≡ false = ground arith in
      rw counted (
        ih
        ∙ rw
            (same, ms, last_n-append s.cap (s.msgs ++ stored s.next_seq p ∷ []), append_assoc, seq))
]

-- Everything recorded by a run carries a sequence number from `next_seq` up.
recorded-above :
    (s : MessageStore) (ps : List Push) (lo : ℕ)
    → lo < s.next_seq
    → s.next_seq + length ps < 2 ^ 64
    → All (λ m. ltb lo m.seq ≡ true) (recorded s ps)
unfolding recorded
recorded-above s [] lo below room = tt
recorded-above s (p ∷ ps) lo below room = elim (push-Pushed s p (omega arith)) [
  | inl (dup, same) ↦ rw (dup, same, recorded) (recorded-above s ps lo below (omega arith))
  | inr (seq, ms, next, same) ↦
      let counted : ((push s p).1 == 0) ≡ false = ground arith in
      rw counted (
        rw seq (lt→ltb lo s.next_seq below),
        recorded-above (push s p).0 ps lo (omega arith) (omega arith),
      )
]

keep-All :
    (p : StoredMessage → Bool) (ms : List StoredMessage) → All (λ m. p m ≡ true) ms → keep p ms ≡ ms
keep-All p [] h = refl
keep-All p (m ∷ ms) h = rw h.0 (ap (◌∷◌ m) (keep-All p ms h.1))

keep-none :
    (p : StoredMessage → Bool) (xs ys : List StoredMessage)
    → All (λ m. p m ≡ false) xs
    → keep p (xs ++ ys) ≡ keep p ys
keep-none p [] ys h = refl
keep-none p (x ∷ xs) ys h = rw h.0 (keep-none p xs ys h.1)

keep-last_n :
    (p : StoredMessage → Bool) (n : ℕ) (xs ys : List StoredMessage)
    → All (λ m. p m ≡ false) xs
    → All (λ m. p m ≡ true) ys
    → length ys ≤ n
    → keep p (last_n n (xs ++ ys)) ≡ ys
unfolding last_n
keep-last_n p n [] ys old new fits = rw (last_n_of_le n ys fits) (keep-All p ys new)
keep-last_n p n (x ∷ xs) ys old new fits = elim (Bool-cases (ltb n (length (x ∷ xs ++ ys)))) [
  | inl over ↦ rw over (keep-last_n p n xs ys old.1 new fits)
  | inr room ↦ rw (room, old.0) (keep-none p xs ys old.1 ∙ keep-All p ys new)
]

Ascending-below :
    (lo hi : ℕ) (ms : List StoredMessage)
    → Ascending lo hi ms
    → All (λ m. ltb (hi - 1) m.seq ≡ false) ms
Ascending-below lo hi [] a = tt
Ascending-below lo hi (m ∷ ms) a =
    (ground (arith, Ascending-le (suc m.seq) hi ms a.1), Ascending-below (suc m.seq) hi ms a.1)

-- A reader that has read up to the newest message, and polls again after a run of pushes that
-- recorded at most `cap` messages, gets exactly those messages: each once, none lost, in the order
-- of arrival. The store is valid, and the u64 counter has room for the run.
pub read_after-push_all :
    (s : MessageStore) (ps : List Push)
    → IsValid s
    → s.next_seq + length ps < 2 ^ 64
    → length (recorded s ps) ≤ s.cap
    → read_after (push_all s ps) (s.next_seq - 1) ≡ recorded s ps
unfolding read_after
read_after-push_all s ps v room fits =
    let pos : 0 < s.next_seq = omega (arith, Ascending-le 1 s.next_seq s.msgs v.ascending) in
    rw (push_all-window s ps pos v.bounded room) (
      keep-last_n (λ m. ltb (s.next_seq - 1) m.seq) s.cap s.msgs (recorded s ps)
        (Ascending-below 1 s.next_seq s.msgs v.ascending)
        (recorded-above s ps (s.next_seq - 1) (omega arith) room) fits)
