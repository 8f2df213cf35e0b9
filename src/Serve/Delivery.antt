-- ===== src/Serve/Delivery.antt =====
-- From `host::messages_send` on one node to the message store of another.
use weverywhere.Prelude.{
  ℕ, ◌≡◌, refl, inl, inr, true, false, [], ◌∷◌, ◌++◌, some, Bytes, member, last_n, is_empty,
  Bool-cases,
}
use weverywhere.MessageStore.{MessageStore, Push, push, append, note_seen}
use weverywhere.Prelude.Ip.{SocketAddr}
use weverywhere.Foreign.Crypto.{Crypto}
use weverywhere.Foreign.Cbor.{ℤ, pos}
use weverywhere.Config.Identity.{IdentityData, valid, check_self_signature, sign_payload}
use weverywhere.Config.Signing.{sign_payload-verifies}
use weverywhere.Messages.{Bare}
use weverywhere.Executor.Memory.{read_guest_bytes}
use weverywhere.Executor.Store.{Sink, Guest}
use weverywhere.Executor.HostMessages.{host_messages_send, sender, signed_message}
use weverywhere.Executor.HostLaws.{host_messages_send-queues}
use weverywhere.Executor.State.{Executor}
use weverywhere.Serve.{World, sig_event, handle_datagram}
use weverywhere.Serve.Admission.{handle_fabric_message-outcome}

-- A push under a key that was not seen records the message behind the others, the oldest giving way
-- where the store is full.
push-fresh :
    (s : MessageStore) (p : Push)
    → member (p.from_pubkey ++ p.id) s.seen ≡ false
    → (push s p).0.msgs
      ≡ last_n s.cap (
          s.msgs
          ++ record {
            seq = s.next_seq;
            from_name = p.from_name;
            from_pubkey = p.from_pubkey;
            text = p.text;
            epoch_s = p.epoch_s;
          }
            ∷ [])
unfolding push append note_seen
push-fresh s p fresh = elim (Bool-cases (is_empty p.id)) [
  | inl plain ↦ rw plain refl
  | inr named ↦ rw (named, fresh) refl
]

-- A message that a program sends reaches every node that receives its datagram unchanged: a send that
-- returns 0 queues a datagram that any other node accepts, and whose message is then the newest in
-- that node's store, behind those it had (the oldest gives way where the store is full), with the
-- sender's name and key, exactly the bytes that the program passed and the time of its arrival. The
-- sending node's identity is valid and belongs to its key; the receiving node's store is not
-- poisoned and has not seen the random id under that key.
pub host_messages_send-delivers :
    (crypto : Crypto) (bare : Bare) (random_id : Bytes) (g after : Guest) (cbor_ptr cbor_len : ℤ)
    (source : IdentityData) (sk : Bytes) (tx : Sink Bytes) (world : World) (port : ℕ) (y : Executor)
    (addr : SocketAddr) (s : MessageStore)
    → sender g.store ≡ some (source, (sk, tx))
    → source.encoded_public_key ≡ crypto.public_of sk
    → check_self_signature crypto source ≡ valid
    → host_messages_send crypto bare random_id g cbor_ptr cbor_len ≡ some (after, pos 0)
    → y.messages ≡ some s
    → member (source.encoded_public_key ++ random_id) s.seen ≡ false
    → (payload : Bytes) × (b : Bytes) × (t : MessageStore) × (read_guest_bytes g.memory cbor_ptr
          cbor_len
        ≡ some payload)
      × (after.store.fabric_send_tx ≡ some (record tx { sent = tx.sent ++ b ∷ [] }))
      × ((handle_datagram crypto bare world port y addr b).executor.messages ≡ some t)
      × (t.msgs
          ≡ last_n s.cap (
              s.msgs
              ++ record {
                seq = s.next_seq;
                from_name = source.human_name;
                from_pubkey = source.encoded_public_key;
                text = payload;
                epoch_s = world.now;
              }
                ∷ []))
      × ((handle_datagram crypto bare world port y addr b).logged ≡ sig_event true addr source ∷ [])
unfolding handle_datagram signed_message
host_messages_send-delivers crypto bare random_id g after cbor_ptr cbor_len source sk tx world port
      y addr s has mine good h held fresh =
    let (payload, b, read, _, enc, queued) =
      host_messages_send-queues crypto bare random_id g after cbor_ptr cbor_len source sk tx has
        h in
    let decodes = bare.round_trip _ b enc in
    let verifies = sign_payload-verifies crypto sk source random_id payload mine in
    elim (handle_fabric_message-outcome crypto bare world port y addr source random_id payload
      (sign_payload crypto sk random_id payload)) [
        | inl (_, received, logged) ↦ (
          payload,
          b,
          (push s (record {
            from_name = source.human_name;
            from_pubkey = source.encoded_public_key;
            id = random_id;
            text = payload;
            epoch_s = world.now;
          })).0,
          read,
          queued,
          rw decodes (received.stored_in s held),
          push-fresh s _ fresh,
          rw decodes logged,
        )
        | inr (refused, _, _) ↦ absurd (refused (good, verifies))
      ]
