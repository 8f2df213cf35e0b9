-- ===== src/Serve/Registries.antt =====
-- The registries of a node, its trusted keys and peers, under each datagram.
use weverywhere.Prelude.{
  ℕ, ◌≡◌, refl, ◌∙◌, inl, inr, if◌then◌else◌, List, [], ◌∷◌, map, Bool, true, Option, none, some,
  Bytes, Text, arith, All, member, Distinct, bytes_eq, bytes_eq_iff, Bool-cases, Option-cases,
}
use weverywhere.Prelude.Ip.{SocketAddr}
use weverywhere.Foreign.Crypto.{Crypto}
use weverywhere.Config.Identity.{IdentityData}
use weverywhere.Messages.{
  Bare, NetworkMessage, execute_request, signed_fabric_message, basic_return_map, basic_return_list,
  basic_insecure_program_exit, basic_insecure_program_stdout,
}
use weverywhere.Executor.State.{
  Executor, PeerInfo, ExecOptions, to_hex, insert, note_peer, record_fabric_message, begin_exec,
  create_pid, Begun, started, bad_identity, not_loaded,
}
use weverywhere.Serve.Admission.{handle_fabric_message-cases}
use weverywhere.MessageStore.{Push}
use weverywhere.Executor.Store.{RpStoreData}
use weverywhere.Executor.Program.{ProgramData}
use weverywhere.Serve.{
  World, Ran, SigEvent, handle_message, handle_execute_request, handle_fabric_message, after_begin,
  after_exit, exec_opts, fabric_push,
}

-- A running program has no import that reaches the node's trusted keys or peers.
pub record LeavesRegistries (world : World) : Type 0 where
  pub trusted_kept :
      (pid : ℕ) (store : RpStoreData) (x : Executor)
      → (world.run pid store x).0.trusted_keys ≡ x.trusted_keys
  pub peers_kept :
      (pid : ℕ) (store : RpStoreData) (x : Executor) → (world.run pid store x).0.peers ≡ x.peers

abbrev pub keys {ℓ} : {A : Type ℓ} → List (Text × A) → List Text
keys m = map (λ kv. kv.0) m

member-insert {ℓ} :
    {A : Type ℓ} (j k : Text) (a : A) (m : List (Text × A))
    → member j (keys (insert k a m)) ≡ (if bytes_eq k j then true else member j (keys m))
unfolding insert
member-insert j k a [] = ground arith
member-insert j k a ((i, b) ∷ m) =
    ground (arith, member-insert j k a m, bytes_eq_iff i k, bytes_eq_iff i j, bytes_eq_iff k j)

insert-Distinct {ℓ} :
    {A : Type ℓ} (k : Text) (a : A) (m : List (Text × A))
    → Distinct (keys m)
    → Distinct (keys (insert k a m))
unfolding insert
insert-Distinct k a [] d = (refl, tt)
insert-Distinct k a ((i, b) ∷ m) d =
    ground
      (arith, insert-Distinct k a m d.1, member-insert i k a m, bytes_eq_iff i k, bytes_eq_iff k i)

pub All-insert {ℓ κ} :
    {A : Type ℓ} (P : Text × A → Type κ) (k : Text) (a : A) (m : List (Text × A))
    → P (k, a)
    → All P m
    → All P (insert k a m)
unfolding insert
All-insert P k a [] p h = (p, tt)
All-insert P k a ((i, b) ∷ m) p h = elim (Bool-cases (bytes_eq i k)) [
  | inl same ↦ rw same (p, h.1)
  | inr other ↦ rw other (h.0, All-insert P k a m p h.1)
]

-- A peer stands under the hexadecimal form of its key.
abbrev pub IsKeyed : Text × PeerInfo → Type 0
IsKeyed (k, p) = k ≡ to_hex p.pubkey

-- What an executor has registered: `own` is the key that the node's key file holds.
pub record IsKept (own : Option Bytes) (trusted : List (Text × Bytes))
    (peers : List (Text × PeerInfo)) : Type 0 where
  pub only_own : All (λ kv. own ≡ some kv.1) trusted
  pub keyed : All IsKeyed peers
  pub distinct : Distinct (keys peers)

abbrev pub IsRegistered : Option Bytes → Executor → Type 0
IsRegistered own x = IsKept own x.trusted_keys x.peers

note_peer-IsRegistered :
    {own : Option Bytes} (x : Executor) (now : ℕ) (addr : SocketAddr) (source : IdentityData)
    → IsRegistered own x
    → IsRegistered own (note_peer x now addr source)
unfolding note_peer
note_peer-IsRegistered x now addr source v = record {
  only_own = v.only_own;
  keyed = All-insert IsKeyed _ _ x.peers refl v.keyed;
  distinct = insert-Distinct _ _ x.peers v.distinct;
}

-- Nothing else that the handler calls touches them.
abbrev SameRegistries : Executor → Executor → Type 0
SameRegistries x y = (y.trusted_keys ≡ x.trusted_keys) × (y.peers ≡ x.peers)

same-IsRegistered :
    {own : Option Bytes} (x y : Executor)
    → SameRegistries x y
    → IsRegistered own x
    → IsRegistered own y
same-IsRegistered x y same v = rw (same.0, same.1) v

record_fabric_message_same :
    (x : Executor) (p : Push) → SameRegistries x (record_fabric_message x p).0
unfolding record_fabric_message
record_fabric_message_same x p = elim (Option-cases x.messages) [
  | inl e ↦ rw e (refl, refl)
  | inr (s, e) ↦ rw e (refl, refl)
]

begin_exec_same :
    (crypto : Crypto) (loads : Bytes → Bool) (x : Executor) (program : ProgramData)
    (opts : ExecOptions)
    → SameRegistries x (begin_exec crypto loads x program opts).0
unfolding begin_exec create_pid
begin_exec_same crypto loads x program opts = ground arith

module _ (crypto : Crypto) (bare : Bare) (world : World) (port : ℕ)
    (leaves : LeavesRegistries world) where
  after_exit-executor :
      (log : List SigEvent) (addr : SocketAddr) (program : ProgramData) (pid : ℕ) (x : Executor)
      (ran : Ran)
      → (after_exit crypto bare world port log addr program pid (x, ran)).executor ≡ x
  unfolding after_exit
  after_exit-executor log addr program pid x ran = elim (Option-cases ran.exit) [
    | inl e ↦ rw e
    | inr (code, e) ↦ rw e
  ]

  after_begin_same :
      (log : List SigEvent) (addr : SocketAddr) (program : ProgramData) (x : Executor)
      (r : Executor × Begun)
      → SameRegistries x r.0
      → SameRegistries x (after_begin crypto bare world port log addr program r).executor
  after_begin_same log addr program x (y, started pid store) same =
      rw
        (after_exit-executor log addr program pid (world.run pid store y).0
          (world.run pid store y).1)
        (leaves.trusted_kept pid store y ∙ same.0, leaves.peers_kept pid store y ∙ same.1)
  after_begin_same log addr program x (y, bad_identity e) same = same
  after_begin_same log addr program x (y, not_loaded) same = same

  pub handle_message-IsRegistered :
      {own : Option Bytes} (x : Executor) (addr : SocketAddr) (m : Option NetworkMessage)
      → IsRegistered own x
      → IsRegistered own (handle_message crypto bare world port x addr m).executor
  unfolding handle_execute_request handle_fabric_message
  handle_message-IsRegistered x addr (some (execute_request program)) v =
      let noted = note_peer x world.now addr program.source in
      same-IsRegistered noted
        (handle_execute_request crypto bare world port x addr program).executor
        (after_begin_same _ addr program noted _ (
          begin_exec_same crypto world.loads noted program (exec_opts crypto bare world port addr)))
        (note_peer-IsRegistered x world.now addr program.source v)
  handle_message-IsRegistered x addr (some (signed_fabric_message source id b sig)) v =
      elim (handle_fabric_message-cases crypto bare world port x addr source id b sig) [
        | inl (accepted, e, logged) ↦ rw e (
            same-IsRegistered (note_peer x world.now addr source)
              (record_fabric_message (note_peer x world.now addr source)
                (fabric_push crypto bare world port source id b)).0
              (record_fabric_message_same (note_peer x world.now addr source)
                (fabric_push crypto bare world port source id b))
              (note_peer-IsRegistered x world.now addr source v))
        | inr (refused, e, logged) ↦ rw e v
      ]
  handle_message-IsRegistered x addr none v = v
  handle_message-IsRegistered x addr (some (basic_return_map _ _ _)) v = v
  handle_message-IsRegistered x addr (some (basic_return_list _ _ _)) v = v
  handle_message-IsRegistered x addr (some (basic_insecure_program_exit _ _)) v = v
  handle_message-IsRegistered x addr (some (basic_insecure_program_stdout _ _)) v = v

  -- No datagram adds or removes a trusted key.
  pub handle_message-trusted_keys :
      (x : Executor) (addr : SocketAddr) (m : Option NetworkMessage)
      → (handle_message crypto bare world port x addr m).executor.trusted_keys ≡ x.trusted_keys
  unfolding handle_execute_request note_peer
  handle_message-trusted_keys x addr (some (execute_request program)) =
      let noted = note_peer x world.now addr program.source in
      (after_begin_same _ addr program noted _ (
        begin_exec_same crypto world.loads noted program (exec_opts crypto bare world port addr))).0
  handle_message-trusted_keys x addr (some (signed_fabric_message source id b sig)) =
      elim (handle_fabric_message-cases crypto bare world port x addr source id b sig) [
        | inl (accepted, e, logged) ↦
            rw e
              (record_fabric_message_same (note_peer x world.now addr source)
                (fabric_push crypto bare world port source id b)).0
        | inr (refused, e, logged) ↦ rw e
      ]
  handle_message-trusted_keys x addr none = refl
  handle_message-trusted_keys x addr (some (basic_return_map _ _ _)) = refl
  handle_message-trusted_keys x addr (some (basic_return_list _ _ _)) = refl
  handle_message-trusted_keys x addr (some (basic_insecure_program_exit _ _)) = refl
  handle_message-trusted_keys x addr (some (basic_insecure_program_stdout _ _)) = refl
