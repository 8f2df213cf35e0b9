-- ===== src/Serve/Receipt.antt =====
-- What the executor of src/command/serve.rs has received when a signed message was accepted.
use weverywhere.Prelude.{
  ℕ, ◌≡◌, refl, ap, ◌↔◌, inl, inr, true, false, List, [], ◌∷◌, some, Bool-cases, Bytes, arith,
  bytes_eq, bytes_eq_refl, bytes_eq_iff, any, In, at_head, in_tail, Text, Option-cases,
  if◌then◌else◌,
}
use weverywhere.Prelude.Ip.{SocketAddr}
use weverywhere.Foreign.Crypto.{Crypto}
use weverywhere.Config.Identity.{IdentityData}
use weverywhere.MessageStore.{MessageStore, Push, push}
use weverywhere.Messages.{Bare}
use weverywhere.Executor.State.{
  Executor, PeerInfo, note_peer, record_fabric_message, insert, lookup, to_hex,
}
use weverywhere.Serve.{World, fabric_push}

module _ {ℓ} {A : Type ℓ} where
  pub lookup-insert :
      (k : List ℕ) (a : A) (m : List (List ℕ × A)) → lookup k (insert k a m) ≡ some a
  unfolding lookup insert
  lookup-insert k a [] = rw (bytes_eq_refl k) refl
  lookup-insert k a ((j, b) ∷ m) = elim (Bool-cases (bytes_eq j k)) [
    | inl same ↦ rw (same, bytes_eq_refl k) refl
    | inr other ↦ rw (other, other) (lookup-insert k a m)
  ]

  lookup-insert_other :
      (j k : List ℕ) (a : A) (m : List (List ℕ × A))
      → bytes_eq k j ≡ false
      → lookup j (insert k a m) ≡ lookup j m
  unfolding lookup insert
  lookup-insert_other j k a [] other = rw other refl
  lookup-insert_other j k a ((i, b) ∷ m) other = elim (Bool-cases (bytes_eq i k)) [
    | inl same ↦ let e : i ≡ k = (bytes_eq_iff i k).0 same in rw (same, other, e, other) refl
    | inr fresh ↦
        rw fresh (ap (λ r. if bytes_eq i j then some b else r) (lookup-insert_other j k a m other))
  ]

-- A key that is among the trusted keys.
abbrev pub IsTrustedBy : Executor → Bytes → Type 0
IsTrustedBy x key = (name : Text) × In (name, key) x.trusted_keys

any-In :
    (key : Bytes) (ks : List (Text × Bytes))
    → (any (λ kv. bytes_eq key kv.1) ks ≡ true) ↔ ((name : Text) × In (name, key) ks)
any-In key [] = (λ h. absurd cc, λ (name, m). elim m [ ])
any-In key ((n, k) ∷ ks) = (
  (λ h. elim (Bool-cases (bytes_eq key k)) [
    | inl same ↦ (n, at_head (ap (λ r. (n, r)) ((bytes_eq_iff key k).0 same)))
    | inr other ↦ let (name, m) = (any-In key ks).0 (ground arith) in (name, in_tail m)
  ]),
  λ (name, m). elim m [
    | at_head e ↦
        let same : bytes_eq key k ≡ true = (bytes_eq_iff key k).1 (ap (λ kv. kv.1) e) in
        rw same refl
    | in_tail later ↦ let found = (any-In key ks).1 (name, later) in ground arith
  ],
)

-- What a message from `addr` makes of the peers: its sender is listed under its key with its name and
-- address, as trusted exactly if its key is, and all other peers are as before.
pub record IsNoted (x y : Executor) (now : ℕ) (addr : SocketAddr) (source : IdentityData)
    : Type 0 where
  pub peer : PeerInfo
  pub listed : lookup (to_hex source.encoded_public_key) y.peers ≡ some peer
  pub name : peer.human_name ≡ source.human_name
  pub key : peer.pubkey ≡ source.encoded_public_key
  pub address : peer.last_addr ≡ addr
  pub time : peer.last_seen_epoch_s ≡ now
  pub trusted_iff : (peer.trusted ≡ true) ↔ IsTrustedBy x source.encoded_public_key
  pub others :
      (j : Text)
      → bytes_eq (to_hex source.encoded_public_key) j ≡ false
      → lookup j y.peers ≡ lookup j x.peers

record_fabric_message-kept :
    (x : Executor) (p : Push)
    → ((record_fabric_message x p).0.peers ≡ x.peers)
      × ((record_fabric_message x p).0.trusted_keys ≡ x.trusted_keys)
unfolding record_fabric_message
record_fabric_message-kept x p = elim (Option-cases x.messages) [
  | inl e ↦ rw e (refl, refl)
  | inr (s, e) ↦ rw e (refl, refl)
]

record_fabric_message-push :
    (x : Executor) (p : Push) (s : MessageStore)
    → x.messages ≡ some s
    → (record_fabric_message x p).0.messages ≡ some (push s p).0
unfolding record_fabric_message
record_fabric_message-push x p s h = rw h refl

-- What an accepted message does: the sender is noted, no trusted key changes, and the store, unless it
-- is poisoned, has had the message pushed with the sender's name and key, the message's id and bytes,
-- and the time.
pub record IsReceived (x y : Executor) (now : ℕ) (addr : SocketAddr) (source : IdentityData)
    (id cbor_data : Bytes) : Type 0 where
  pub noted : IsNoted x y now addr source
  pub trusted_kept : y.trusted_keys ≡ x.trusted_keys
  pub stored_in :
      (s : MessageStore)
      → x.messages ≡ some s
      → y.messages
        ≡ some
            (push s (record {
              from_name = source.human_name;
              from_pubkey = source.encoded_public_key;
              id = id;
              text = cbor_data;
              epoch_s = now;
            })).0

pub received :
    (crypto : Crypto) (bare : Bare) (world : World) (port : ℕ) (x : Executor) (addr : SocketAddr)
    (source : IdentityData) (id cbor_data : Bytes)
    → IsReceived x
        (record_fabric_message
          (note_peer x world.now addr source)
          (fabric_push crypto bare world port source id cbor_data)).0
        world.now
        addr
        source
        id
        cbor_data
unfolding note_peer
received crypto bare world port x addr source id cbor_data =
    let noted = note_peer x world.now addr source in
    let p = fabric_push crypto bare world port source id cbor_data in
    let kept = record_fabric_message-kept noted p in
    record {
      noted = record {
        peer = _;
        listed = rw kept.0 (lookup-insert _ _ x.peers);
        name = refl;
        key = refl;
        address = refl;
        time = refl;
        trusted_iff = any-In source.encoded_public_key x.trusted_keys;
        others = λ j other. rw kept.0 (lookup-insert_other j _ _ x.peers other);
      };
      trusted_kept = kept.1;
      stored_in = λ s h. record_fabric_message-push noted p s h;
    }
