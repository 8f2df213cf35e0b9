-- ===== src/Launch/Laws.antt =====
-- From a message that the chat program sends, src/command/chat.rs, to the fabric and to other nodes.
use weverywhere.Prelude.{
  ℕ, ◌≡◌, ap, ◌∙◌, [], ◌∷◌, ◌++◌, some, Bytes, map-append, member, last_n, false,
}
use weverywhere.MessageStore.{MessageStore}
use weverywhere.Prelude.Ip.{SocketAddr}
use weverywhere.Foreign.Crypto.{Crypto}
use weverywhere.Foreign.Cbor.{ℤ, pos}
use weverywhere.Config.Identity.{valid, check_self_signature}
use weverywhere.Messages.{Bare}
use weverywhere.Executor.Store.{Sink, Guest}
use weverywhere.Executor.HostMessages.{host_messages_send, sender}
use weverywhere.Executor.Memory.{read_guest_bytes}
use weverywhere.Executor.State.{Executor}
use weverywhere.Serve.{World, handle_datagram}
use weverywhere.Serve.Delivery.{host_messages_send-delivers}
use weverywhere.Run.{Net, broadcast_bytes_to_fabric}
use weverywhere.Launch.{Launcher, drain_messages, queued}

-- A message that the chat program sends goes out to the fabric, as one broadcast behind those of the
-- messages before it, whose bytes every node that receives them takes for a message of this node's
-- identity, which is then the newest in its store, with the payload that the program passed.
pub host_messages_send-fabric :
    (crypto : Crypto) (bare : Bare) (net : Net) (l : Launcher) (random_id : Bytes) (g after : Guest)
    (cbor_ptr cbor_len : ℤ) (sk : Bytes) (tx : Sink Bytes) (world : World) (port : ℕ) (y : Executor)
    (addr : SocketAddr) (s : MessageStore)
    → sender g.store ≡ some (l.source, (sk, tx))
    → l.source.encoded_public_key ≡ crypto.public_of sk
    → check_self_signature crypto l.source ≡ valid
    → host_messages_send crypto bare random_id g cbor_ptr cbor_len ≡ some (after, pos 0)
    → y.messages ≡ some s
    → member (l.source.encoded_public_key ++ random_id) s.seen ≡ false
    → (payload : Bytes) × (b : Bytes) × (t : MessageStore) × (read_guest_bytes g.memory cbor_ptr
          cbor_len
        ≡ some payload)
      × (drain_messages net bare l (queued after.store.fabric_send_tx)
          ≡ drain_messages net bare l tx.sent
            ++ broadcast_bytes_to_fabric net b l.groups l.port l.peers ∷ [])
      × ((handle_datagram crypto bare world port y addr b).executor.messages ≡ some t)
      × (t.msgs
          ≡ last_n s.cap (
              s.msgs
              ++ record {
                seq = s.next_seq;
                from_name = l.source.human_name;
                from_pubkey = l.source.encoded_public_key;
                text = payload;
                epoch_s = world.now;
              }
                ∷ []))
unfolding drain_messages
host_messages_send-fabric crypto bare net l random_id g after cbor_ptr cbor_len sk tx world port y
      addr s has mine good h held fresh =
    let (payload, b, t, read, queue, recorded, stored, logged) =
      host_messages_send-delivers crypto bare random_id g after cbor_ptr cbor_len l.source sk tx
        world port y addr s has mine good h held fresh in
    (
      payload,
      b,
      t,
      read,
      ap (λ q. drain_messages net bare l (queued q)) queue
          ∙ map-append (λ m. broadcast_bytes_to_fabric net m l.groups l.port l.peers) tx.sent
              (b ∷ []),
      recorded,
      stored,
    )
