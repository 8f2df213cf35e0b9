-- ===== src/Executor/HostLaws.antt =====
-- What the message imports of a program guarantee.
use weverywhere.Prelude.{
  ℕ, zero, suc, ◌<◌, ◌≤◌, ◌≡◌, refl, sym, ◌⊎◌, inl, inr, true, List, [], ◌∷◌, ◌++◌, some,
  Option-cases, Bool-cases, Bytes, arith, leb, take, length, All, All-append, last_n, ltb, is_empty,
  member, subst,
}
use weverywhere.Foreign.Crypto.{Crypto}
use weverywhere.Foreign.Cbor.{Cbor, ℤ, pos}
use weverywhere.Config.Identity.{IdentityData}
use weverywhere.MessageStore.{
  StoredMessage, MessageStore, Push, push, append, note_seen, stored, key,
}
use weverywhere.Messages.{Bare}
use weverywhere.Executor.Memory.{read_guest_bytes}
use weverywhere.Executor.Store.{Sink, Guest}
use weverywhere.Executor.HostMessages.{
  encode_list, encode_prefix, encode_messages_cbor, host_messages_push, host_messages_send, pushed,
  sender, signed_message, is_list_or_map,
}

-- The encoded list of the first `n` messages, for the largest `n` that fits; where not even one
-- message fits it is the empty list.
abbrev pub LargestFit : Cbor → List StoredMessage → ℕ → ℕ → Bytes → Type 0
LargestFit cbor ms cap most b =
    (n : ℕ) × (n ≤ most)
    × (b ≡ encode_list cbor (take n ms))
    × ((n ≡ 0) ⊎ (length b ≤ cap))
    × ((m : ℕ) → n < m → m ≤ most → cap < length (encode_list cbor (take m ms)))

encode_prefix-LargestFit :
    (cbor : Cbor) (ms : List StoredMessage) (cap k : ℕ)
    → LargestFit cbor ms cap k (encode_prefix cbor ms cap k)
unfolding encode_prefix
encode_prefix-LargestFit cbor ms cap zero =
    (0, omega arith, refl, inl refl, λ m lo hi. absurd (omega arith))
encode_prefix-LargestFit cbor ms cap (suc k) =
    elim (Bool-cases (leb (length (encode_list cbor (take (suc k) ms))) cap)) [
      | inl fits ↦
          rw fits (suc k, omega arith, refl, inr (ground arith), λ m lo hi. absurd (omega arith))
      | inr over ↦
          let (n, below, same, small, larger) = encode_prefix-LargestFit cbor ms cap k in
          rw over (
            n,
            omega arith,
            same,
            small,
            λ m lo hi. elim (Bool-cases (leb m k)) [
              | inl before ↦ larger m lo (ground arith)
              | inr last ↦
                  let e : m ≡ suc k = ground arith in
                  let long : cap < length (encode_list cbor (take (suc k) ms)) = ground arith in
                  subst (λ (i : ℕ). cap < length (encode_list cbor (take i ms))) (sym e) long
            ],
          )
    ]

-- What a program reads is the longest run of the oldest new messages whose encoding fits into its
-- buffer; where not even the first fits it is the empty list.
pub encode_messages_cbor-LargestFit :
    (cbor : Cbor) (ms : List StoredMessage) (cap : ℕ)
    → LargestFit cbor ms cap (length ms) (encode_messages_cbor cbor ms cap)
unfolding encode_messages_cbor
encode_messages_cbor-LargestFit cbor ms cap = encode_prefix-LargestFit cbor ms cap (length ms)

All-last_n :
    (P : StoredMessage → Type 0) (n : ℕ) (ms : List StoredMessage) → All P ms → All P (last_n n ms)
unfolding last_n
All-last_n P n [] a = a
All-last_n P n (m ∷ ms) a = elim (Bool-cases (ltb n (length (m ∷ ms)))) [
  | inl over ↦ rw over (All-last_n P n ms a.1)
  | inr fits ↦ rw fits a
]

append-All :
    (P : StoredMessage → Type 0) (s : MessageStore) (p : Push)
    → All P s.msgs
    → ((seq : ℕ) → P (stored seq p))
    → All P (append s p).0.msgs
unfolding append
append-All P s p a h =
    All-last_n P s.cap (s.msgs ++ stored s.next_seq p ∷ [])
      (All-append P s.msgs _ a (h s.next_seq, tt))

push-All :
    (P : StoredMessage → Type 0) (s : MessageStore) (p : Push)
    → All P s.msgs
    → ((seq : ℕ) → P (stored seq p))
    → All P (push s p).0.msgs
unfolding push note_seen
push-All P s p a h = elim (Bool-cases (is_empty p.id)) [
  | inl plain ↦ rw plain (append-All P s p a h)
  | inr named ↦ elim (Bool-cases (member (key p) s.seen)) [
    | inl again ↦ rw (named, again) a
    | inr fresh ↦ rw (named, fresh) (append-All P (note_seen s (key p)) p a h)
  ]
]

host_messages_push-pushes :
    (now : ℕ) (g after : Guest) (id_ptr id_len text_ptr text_len r : ℤ) (s : MessageStore)
    → g.store.messages ≡ some s
    → host_messages_push now g id_ptr id_len text_ptr text_len ≡ some (after, r)
    → (id : Bytes) × (body : Bytes) × (after.store.messages
        ≡ some (push s (pushed g.store id body now)).0)
unfolding host_messages_push
host_messages_push-pushes now g after id_ptr id_len text_ptr text_len r s has h =
    elim (Option-cases (read_guest_bytes g.memory id_ptr id_len)) [
      | inl trap ↦ absurd (ground arith)
      | inr (id, e) ↦ elim (Option-cases (read_guest_bytes g.memory text_ptr text_len)) [
        | inl trap ↦ absurd (ground arith)
        | inr (body, f) ↦ (id, body, ground arith)
      ]
    ]

-- A program cannot forge a sender: whatever it passes to `host::messages_push`, every message that
-- the store has afterwards it had before, or it bears the caller's own name and key.
pub host_messages_push-stamps :
    (P : StoredMessage → Type 0) (now : ℕ) (g after : Guest) (id_ptr id_len text_ptr text_len r : ℤ)
    (s : MessageStore)
    → g.store.messages ≡ some s
    → host_messages_push now g id_ptr id_len text_ptr text_len ≡ some (after, r)
    → All P s.msgs
    → ((m : StoredMessage)
        → m.from_name ≡ g.store.caller_name
        → m.from_pubkey ≡ g.store.caller_pubkey
        → m.epoch_s ≡ now
        → P m)
    → (t : MessageStore) × (after.store.messages ≡ some t) × All P t.msgs
host_messages_push-stamps P now g after id_ptr id_len text_ptr text_len r s has h a stamped =
    let (id, body, e) =
      host_messages_push-pushes now g after id_ptr id_len text_ptr text_len r s has h in
    (_, e, push-All P s (pushed g.store id body now) a (λ seq. stamped _ refl refl refl))

-- A send that returns 0 has queued one message: the encoded, signed message for the bytes that the
-- program passed, which begin a CBOR list or map.
pub host_messages_send-queues :
    (crypto : Crypto) (bare : Bare) (random_id : Bytes) (g after : Guest) (cbor_ptr cbor_len : ℤ)
    (source : IdentityData) (sk : Bytes) (tx : Sink Bytes)
    → sender g.store ≡ some (source, (sk, tx))
    → host_messages_send crypto bare random_id g cbor_ptr cbor_len ≡ some (after, pos 0)
    → (payload : Bytes) × (b : Bytes) × (read_guest_bytes g.memory cbor_ptr cbor_len ≡ some payload)
      × (is_list_or_map payload ≡ true)
      × (bare.to_vec (signed_message crypto source sk random_id payload) ≡ some b)
      × (after.store.fabric_send_tx ≡ some (record tx { sent = tx.sent ++ b ∷ [] }))
unfolding host_messages_send
host_messages_send-queues crypto bare random_id g after cbor_ptr cbor_len source sk tx has h =
    elim (Option-cases (read_guest_bytes g.memory cbor_ptr cbor_len)) [
      | inl trap ↦ absurd (ground arith)
      | inr (payload, e) ↦
          elim (Option-cases (bare.to_vec (signed_message crypto source sk random_id payload))) [
            | inl failed ↦ absurd (ground arith)
            | inr (b, f) ↦ (payload, b, e, ground arith, f, ground arith)
          ]
    ]
