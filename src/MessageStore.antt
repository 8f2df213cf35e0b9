-- ===== src/MessageStore.antt =====
-- `MessageStore` of src/executor/mod.rs: a node's bounded log of the messages received on the
-- fabric, with the bounded memory of (sender, message id) keys that drops repeats.
pub mod Seen
pub mod Invariant
pub mod Reads
pub mod Dedup
pub mod Window
mod Tests
use weverywhere.Prelude.{
  ℕ, ◌+◌, ◌%◌, ◌^◌, Bool, List, [], ◌∷◌, ◌++◌, Bytes, Text, ltb, ◌==◌, if◌then◌else◌, is_empty,
  member, keep, last_n, length, remove,
}

pub record StoredMessage : Type 0 where
  pub seq : ℕ
  pub from_name : Text
  pub from_pubkey : Bytes
  pub text : Bytes
  pub epoch_s : ℕ

-- The front of `msgs` and of `seen_order` is the oldest entry. `seen` is a set.
pub record MessageStore : Type 0 where
  pub next_seq : ℕ
  pub msgs : List StoredMessage
  pub cap : ℕ
  pub seen : List Bytes
  pub seen_order : List Bytes
  pub seen_cap : ℕ

-- `MessageStore::new`.
unfoldable pub new : ℕ → MessageStore
new cap = record { next_seq = 1; msgs = []; cap = cap; seen = []; seen_order = []; seen_cap = 4096 }

-- The arguments of one call of `push`.
pub record Push : Type 0 where
  pub from_name : Text
  pub from_pubkey : Bytes
  pub id : Bytes
  pub text : Bytes
  pub epoch_s : ℕ

abbrev pub key : Push → Bytes
key p = p.from_pubkey ++ p.id

-- `while seen_order.len() > seen_cap { seen.remove(seen_order.pop_front()) }`: the queue and the set
-- that are left.
unfoldable pub trim_seen : ℕ → List Bytes → List Bytes → List Bytes × List Bytes
trim_seen cap [] seen = ([], seen)
trim_seen cap (old ∷ order) seen =
    if ltb cap (length (old ∷ order))
    then trim_seen cap order (remove old seen)
    else (old ∷ order, seen)

unfoldable pub note_seen : MessageStore → Bytes → MessageStore
note_seen s k =
    let (order, seen) = trim_seen s.seen_cap (s.seen_order ++ k ∷ []) (k ∷ s.seen) in
    record s { seen = seen; seen_order = order }

abbrev pub stored : ℕ → Push → StoredMessage
stored seq p = record {
  seq = seq;
  from_name = p.from_name;
  from_pubkey = p.from_pubkey;
  text = p.text;
  epoch_s = p.epoch_s;
}

-- The part of `push` behind the test for a duplicate. The sequence number is a u64 and wraps.
unfoldable pub append : MessageStore → Push → MessageStore × ℕ
append s p = (
  record s {
    next_seq = (s.next_seq + 1) % 2 ^ 64;
    msgs = last_n s.cap (s.msgs ++ stored s.next_seq p ∷ []);
  },
  s.next_seq,
)

-- `MessageStore::push`: the store after it, and the sequence number, 0 for a dropped duplicate.
unfoldable pub push : MessageStore → Push → MessageStore × ℕ
unfolding append note_seen
push s p =
    if is_empty p.id
    then append s p
    else if member (key p) s.seen
    then (s, 0)
    else append (note_seen s (key p)) p

-- `MessageStore::read_after`, oldest first.
unfoldable pub read_after : MessageStore → ℕ → List StoredMessage
read_after s after_seq = keep (λ m. ltb after_seq m.seq) s.msgs

-- A run of pushes.
unfoldable pub push_all : MessageStore → List Push → MessageStore
push_all s [] = s
push_all s (p ∷ ps) = push_all (push s p).0 ps
