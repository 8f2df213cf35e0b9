-- ===== src/Executor/HostMessages.antt =====
-- The imports of src/executor/mod.rs by which a program records, reads and sends messages,
-- replicates itself and attests its node.
use weverywhere.Prelude.{
  ℕ, zero, suc, ◌/◌, ◌==◌, ◌||◌, Bool, false, List, [], ◌∷◌, ◌++◌, Option, none, some, Bytes, Text,
  leb, if◌then◌else◌, take, length,
}
use weverywhere.Prelude.Utf8.{from_utf8_lossy}
use weverywhere.Foreign.Crypto.{Crypto}
use weverywhere.Foreign.Cbor.{
  Cbor, Value, Items, integer, text, bytes, array, map, nil, cons, entry, end, get, ℤ, pos, negsuc,
}
use weverywhere.Config.Identity.{IdentityData, sign_payload}
use weverywhere.Discovery.{attestation_signing_bytes, build_attestation_cbor}
use weverywhere.MessageStore.{StoredMessage, Push, push, read_after}
use weverywhere.Messages.{NetworkMessage, signed_fabric_message, Bare}
use weverywhere.Executor.Memory.{max0, read_guest_bytes}
use weverywhere.Executor.Program.{ReplicateRequest}
use weverywhere.Executor.Store.{Sink, RpStoreData, Guest}
use weverywhere.Executor.Host.{Ret, minus_one, as_signed, write, reading}

-- The record of a message (`message_keys`): seq, name, pubkey, epoch_s, text.
unfoldable pub message_value : StoredMessage → Value
message_value m = map (
    entry (integer (pos 1)) (integer (pos m.seq)) (
      entry (integer (pos 2)) (text m.from_name) (
        entry (integer (pos 3)) (bytes m.from_pubkey) (
          entry (integer (pos 4)) (integer (pos m.epoch_s))
            (entry (integer (pos 5)) (bytes m.text) end)))))

unfoldable pub message_values : List StoredMessage → Items
message_values [] = nil
message_values (m ∷ ms) = cons (message_value m) (message_values ms)

abbrev pub or_default : Option Bytes → Bytes
or_default none = []
or_default (some b) = b

-- `serde_cbor::to_vec(&Value::Array(msgs)).unwrap_or_default()`.
unfoldable pub encode_list : Cbor → List StoredMessage → Bytes
encode_list cbor ms = or_default (cbor.to_vec (array (message_values ms)))

-- The loop of `encode_messages_cbor` at `n`.
unfoldable pub encode_prefix : Cbor → List StoredMessage → ℕ → ℕ → Bytes
encode_prefix cbor ms cap zero = encode_list cbor (take 0 ms)
encode_prefix cbor ms cap (suc n) =
    let shorter = encode_prefix cbor ms cap n in
    let encoded = encode_list cbor (take (suc n) ms) in
    if leb (length encoded) cap then encoded else shorter

unfoldable pub encode_messages_cbor : Cbor → List StoredMessage → ℕ → Bytes
encode_messages_cbor cbor ms cap = encode_prefix cbor ms cap (length ms)

abbrev pub after_of : ℤ → ℕ
after_of (pos n) = n
after_of (negsuc n) = 0

unfoldable pub host_messages_read : Cbor → Guest → ℤ → ℤ → ℤ → Ret
host_messages_read cbor g after_seq ptr cap =
    let msgs : List StoredMessage = elim g.store.messages [
      | none ↦ []
      | some s ↦ read_after s (after_of after_seq)
    ] in
    write g ptr (pos (max0 cap)) (encode_messages_cbor cbor msgs (max0 cap))

-- The call of `push` that `host::messages_push` makes.
abbrev pub pushed : RpStoreData → Bytes → Bytes → ℕ → Push
pushed d id body epoch = record {
  from_name = d.caller_name;
  from_pubkey = d.caller_pubkey;
  id = id;
  text = body;
  epoch_s = epoch;
}

unfoldable pub host_messages_push : ℕ → Guest → ℤ → ℤ → ℤ → ℤ → Ret
host_messages_push now g id_ptr id_len text_ptr text_len =
    reading (read_guest_bytes g.memory id_ptr id_len) λ id.
      reading (read_guest_bytes g.memory text_ptr text_len) λ body. elim g.store.messages [
        | none ↦ some (g, pos 0)
        | some s ↦
            let r = push s (pushed g.store id body now) in
            some (record g { store = record g.store { messages = some r.0 } }, as_signed 64 r.1)
      ]

abbrev text_item : Value → Text
text_item (text s) = s
text_item (bytes b) = from_utf8_lossy b
text_item _ = []

unfoldable pub text_items : Items → List Text
text_items nil = []
text_items (cons v vs) = text_item v ∷ text_items vs

abbrev pub as_texts : Option Value → List Text
as_texts (some (array items)) = text_items items
as_texts _ = []

-- `flat.chunks(2).filter(|c| c.len() == 2)`, as pairs.
unfoldable pub chunk_pairs : List Text → List (Text × Text)
chunk_pairs [] = []
chunk_pairs (k ∷ []) = []
chunk_pairs (k ∷ v ∷ rest) = (k, v) ∷ chunk_pairs rest

abbrev pub args_of : Option Value → ReplicateRequest
args_of (some (map m)) = record {
  arg_list = as_texts (get 1 m);
  arg_map = chunk_pairs (as_texts (get 2 m));
}
args_of _ = record { arg_list = []; arg_map = [] }

unfoldable pub decode_replicate_args : Cbor → Bytes → ReplicateRequest
decode_replicate_args cbor b = args_of (cbor.from_slice b)

abbrev pub send {ℓ} : {A : Type ℓ} → Sink A → A → Sink A × ℤ
send tx a = if tx.is_open then (record tx { sent = tx.sent ++ a ∷ [] }, pos 0) else (tx, minus_one)

unfoldable pub host_replicate : Cbor → Guest → ℤ → ℤ → ℤ → Ret
host_replicate cbor g scope args_ptr args_len =
    reading (read_guest_bytes g.memory args_ptr args_len) λ args. elim g.store.replicate_tx [
      | none ↦ some (g, minus_one)
      | some tx ↦
          let r = send tx (decode_replicate_args cbor args) in
          some (record g { store = record g.store { replicate_tx = some r.0 } }, r.1)
    ]

-- `payload.first().map(|b| b >> 5)` is 4 or 5.
abbrev pub is_list_or_map : Bytes → Bool
is_list_or_map [] = false
is_list_or_map (b ∷ bs) = b / 32 == 4 || b / 32 == 5

-- The three things that a send needs.
abbrev pub sender : RpStoreData → Option (IdentityData × (Bytes × Sink Bytes))
sender d = all d.identity_data d.signing_key d.fabric_send_tx
  where
    all :
        Option IdentityData
        → Option Bytes
        → Option (Sink Bytes)
        → Option (IdentityData × (Bytes × Sink Bytes))
    all (some source) (some sk) (some tx) = some (source, (sk, tx))
    all _ _ _ = none

-- The message that is signed and sent for a payload, under a random id.
unfoldable pub signed_message : Crypto → IdentityData → Bytes → Bytes → Bytes → NetworkMessage
signed_message crypto source sk id payload =
    signed_fabric_message source id payload (sign_payload crypto sk id payload)

unfoldable pub host_messages_send : Crypto → Bare → Bytes → Guest → ℤ → ℤ → Ret
host_messages_send crypto bare random_id g cbor_ptr cbor_len =
    reading (read_guest_bytes g.memory cbor_ptr cbor_len) λ payload.
      if is_list_or_map payload
      then elim (sender g.store) [
        | none ↦ some (g, minus_one)
        | some (source, (sk, tx)) ↦
            elim (bare.to_vec (signed_message crypto source sk random_id payload)) [
              | none ↦ some (g, negsuc 2)
              | some b ↦
                  let r = send tx b in
                  some (record g { store = record g.store { fabric_send_tx = some r.0 } }, r.1)
            ]
      ]
      else some (g, negsuc 1)

-- `host::signed_attestation` at a time.
unfoldable pub host_signed_attestation : Crypto → Cbor → ℕ → Guest → ℤ → ℤ → Ret
host_signed_attestation crypto cbor now g ptr cap = elim g.store.signing_key [
  | none ↦ some (g, minus_one)
  | some sk ↦
      let msg = attestation_signing_bytes g.store.hostname g.store.our_pubkey now in
      elim (build_attestation_cbor cbor g.store.hostname g.store.our_pubkey now
        (crypto.sign sk msg)) [ none ↦ some (g, minus_one) | some b ↦ write g ptr cap b ]
]
