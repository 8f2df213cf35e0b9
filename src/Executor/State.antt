-- ===== src/Executor/State.antt =====
-- `Executor` of src/executor/mod.rs: its trusted keys, the peers it has observed, its messages, and
-- the admission of programs.
use weverywhere.Prelude.{
  ℕ, ◌+◌, ◌%◌, ◌/◌, ◌^◌, Bool, true, false, List, [], ◌∷◌, ◌++◌, map, Option, none, some, Bytes,
  Text, if◌then◌else◌, any, bytes_eq, length,
}
use weverywhere.Prelude.Ip.{SocketAddr, addr_text, hex_digit}
use weverywhere.Foreign.Crypto.{Crypto}
use weverywhere.Config.Identity.{
  IdentityData, Checked, valid, key_not_32_bytes, bad_key, bad_signature, mismatch,
  check_self_signature,
}
use weverywhere.MessageStore.{MessageStore, Push, push}
use weverywhere.Tty.Handle.{TtyHandle}
use weverywhere.Executor.Program.{ProgramData, ReplicateRequest}
use weverywhere.Executor.Store.{Sink, RpStoreData}

-- `to_hex` of src/crypto_utils.rs, two lowercase digits a byte, and `short_id`.
unfoldable pub to_hex : Bytes → Text
to_hex [] = []
to_hex (b ∷ bs) = hex_digit (b / 16) ∷ hex_digit (b % 16) ∷ to_hex bs

unfoldable pub short_id : Bytes → Text
unfolding to_hex
short_id (a ∷ b ∷ c ∷ d ∷ rest) = to_hex (a ∷ b ∷ c ∷ d ∷ [])
short_id bs = to_hex bs

pub record PeerInfo : Type 0 where
  pub human_name : Text
  pub pubkey : Bytes
  pub last_addr : SocketAddr
  pub trusted : Bool
  pub last_seen_epoch_s : ℕ

-- The maps are association lists without repeated keys; `messages` is `none` if its lock is poisoned.
pub record Executor : Type 0 where
  pub next_pid : ℕ
  pub trusted_keys : List (Text × Bytes)
  pub hostname : Text
  pub peers : List (Text × PeerInfo)
  pub messages : Option MessageStore
  pub identity_signing_key : Option Bytes
  pub identity_pubkey : Bytes
  pub identity_data : Option IdentityData

module _ {ℓ} {A : Type ℓ} where
  -- `DashMap::insert`.
  unfoldable pub insert : Text → A → List (Text × A) → List (Text × A)
  insert k a [] = (k, a) ∷ []
  insert k a ((j, b) ∷ m) =
      let rest = insert k a m in if bytes_eq j k then (k, a) ∷ m else (j, b) ∷ rest

  unfoldable pub lookup : Text → List (Text × A) → Option A
  lookup k [] = none
  lookup k ((j, b) ∷ m) = let rest = lookup k m in if bytes_eq j k then some b else rest

unfoldable pub add_trusted_key : Executor → Text → Bytes → Executor
add_trusted_key x name key = record x { trusted_keys = insert name key x.trusted_keys }

unfoldable pub trusts_pubkey : Executor → Bytes → Bool
trusts_pubkey x pubkey = any (λ kv. bytes_eq kv.1 pubkey) x.trusted_keys

unfoldable pub observed_targets : Executor → List (SocketAddr × Bytes)
observed_targets x = map (λ kv. (kv.1.last_addr, kv.1.pubkey)) x.peers

unfoldable pub note_peer : Executor → ℕ → SocketAddr → IdentityData → Executor
note_peer x now addr source = record x {
  peers =
      insert (to_hex source.encoded_public_key)
        (record {
          human_name = source.human_name;
          pubkey = source.encoded_public_key;
          last_addr = addr;
          trusted = any (λ kv. bytes_eq source.encoded_public_key kv.1) x.trusted_keys;
          last_seen_epoch_s = now;
        })
        x.peers;
}

unfoldable pub record_fabric_message : Executor → Push → Executor × ℕ
record_fabric_message x p = elim x.messages [
  | none ↦ (x, 0)
  | some s ↦ let r = push s p in (record x { messages = some r.0 }, r.1)
]

pub record ExecOptions : Type 0 where
  pub node_addr : Option Text
  pub replicate_tx : Option (Sink ReplicateRequest)
  pub fabric_send_tx : Option (Sink Bytes)
  pub tty : Option TtyHandle
  pub uncapped_fuel : Bool

-- A line of the snapshot that `host::peer_report` shows.
unfoldable pub peer_report : PeerInfo → Text
peer_report p =
    p.human_name
    ++ (9 ∷ (addr_text p.last_addr ++ (9 ∷ ((if p.trusted then 49 else 48) ∷ 9 ∷ to_hex p.pubkey))))

-- The store data that `create_pid` hands to the program.
unfoldable pub rps_store_data : Executor → ProgramData → Bool → ExecOptions → RpStoreData
rps_store_data x program trusted opts = record {
  program_is_trusted = some trusted;
  hostname = x.hostname;
  peer_reports = map (λ kv. peer_report kv.1) x.peers;
  signing_key = x.identity_signing_key;
  our_pubkey = x.identity_pubkey;
  caller_pubkey = program.source.encoded_public_key;
  caller_name = program.source.human_name;
  messages = x.messages;
  trusted_pubkeys = map (λ kv. kv.1) x.trusted_keys;
  replicate_tx = opts.replicate_tx;
  fabric_send_tx = opts.fabric_send_tx;
  identity_data = x.identity_data;
  tty = opts.tty;
  depth = length program.visited % 2 ^ 32;
  node_addr = opts.node_addr;
  arg_list = program.arg_list;
  arg_map = program.arg_map;
  return_slot = some (record { map = none; forward_uuid = none });
}

-- What `begin_exec` starts: the pid, and the data of the program's store.
pub data Begun : Type 0 where
  started : (pid : ℕ) (store : RpStoreData) → Begun
  bad_identity : Checked → Begun
  not_loaded : Begun

-- `create_next_pid` wraps at 64 bits.
unfoldable pub create_next_pid : Executor → Executor × ℕ
create_next_pid x = (record x { next_pid = (x.next_pid + 1) % 2 ^ 64 }, x.next_pid)

-- `create_pid`; `loads` is whether wasmtime accepts the program's bytes.
unfoldable pub create_pid :
    (Bytes → Bool) → Executor → ProgramData → Bool → ExecOptions → Executor × Begun
unfolding create_next_pid
create_pid loads x program trusted opts =
    let (x', pid) = create_next_pid x in
    if loads program.wasm_program_bytes
    then (x', started pid (rps_store_data x program trusted opts))
    else (x', not_loaded)

-- The loop over the trusted keys.
unfoldable pub is_trusted : List (Text × Bytes) → Bytes → Bool → Bool
is_trusted [] pubkey found = found
is_trusted ((name, key) ∷ keys) pubkey found =
    is_trusted keys pubkey (if bytes_eq pubkey key then true else found)

unfoldable pub begin_exec :
    Crypto → (Bytes → Bool) → Executor → ProgramData → ExecOptions → Executor × Begun
begin_exec crypto loads x program opts = elim (check_self_signature crypto program.source) [
  | valid ↦
      create_pid loads x program (is_trusted x.trusted_keys program.source.encoded_public_key false)
        opts
  | key_not_32_bytes ↦ (x, bad_identity key_not_32_bytes)
  | bad_key ↦ (x, bad_identity bad_key)
  | bad_signature ↦ (x, bad_identity bad_signature)
  | mismatch ↦ (x, bad_identity mismatch)
]
