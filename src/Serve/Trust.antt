-- ===== src/Serve/Trust.antt =====
-- A node that serves: from `Executor::new`, its start-up task and datagrams in any order.
use weverywhere.Prelude.{
  ℕ, ◌≡◌, refl, ap, ◌∙◌, inl, inr, List, [], ◌∷◌, Bool, true, false, Option, none, some, some_inj,
  bytes_eq_refl, ◌↔◌, Bytes, Text, arith, bytes_eq_iff, Option-cases,
}
use weverywhere.Prelude.Ip.{SocketAddr}
use weverywhere.Foreign.Crypto.{Crypto}
use weverywhere.Config.Identity.{valid, check_self_signature}
use weverywhere.KeyFiles.{KeyCrates, read_public_key}
use weverywhere.Messages.{Bare}
use weverywhere.Executor.State.{
  Executor, insert, add_trusted_key, ExecOptions, begin_exec, create_pid, is_trusted,
  rps_store_data, started,
}
use weverywhere.Executor.Start.{Boot, new_executor, start_up, or_self}
use weverywhere.Executor.Store.{RpStoreData}
use weverywhere.Executor.Program.{ProgramData}
use weverywhere.Serve.{World, handle_datagram}
use weverywhere.Serve.Registries.{
  LeavesRegistries, IsRegistered, All-insert, handle_message-IsRegistered,
  handle_message-trusted_keys,
}

-- A node that serves: it starts, its start-up task runs, and datagrams are handled, each on what the
-- one before left. The clock and what programs do may be another for every datagram. `up` tells
-- whether the start-up task has run.
pub data Serves (crypto : Crypto) (crates : KeyCrates) (boot : Boot) (bare : Bare) (port : ℕ)
    : Bool → Executor → Type 0 where
  started_new :
      (x : Executor)
      → x ≡ new_executor crypto crates boot
      → Serves crypto crates boot bare port false x
  started_up :
      (before : Bool) (x y : Executor)
      → Serves crypto crates boot bare port before x
      → y ≡ start_up crypto crates boot x
      → Serves crypto crates boot bare port true y
  handled :
      (up : Bool) (x y : Executor) (world : World) (addr : SocketAddr) (b : Bytes)
      → LeavesRegistries world
      → Serves crypto crates boot bare port up x
      → y ≡ (handle_datagram crypto bare world port x addr b).executor
      → Serves crypto crates boot bare port up y

start_up-IsRegistered :
    (crypto : Crypto) (crates : KeyCrates) (boot : Boot) (x : Executor)
    → IsRegistered (read_public_key crates boot.keyfile) x
    → IsRegistered (read_public_key crates boot.keyfile) (start_up crypto crates boot x)
unfolding start_up add_trusted_key
start_up-IsRegistered crypto crates boot x v =
    elim (Option-cases (read_public_key crates boot.keyfile)) [
      | inl e ↦ rw e (rw e at v)
      | inr (pk, e) ↦ rw e (record {
        only_own = All-insert _ _ _ x.trusted_keys refl (rw e at v.only_own);
        keyed = v.keyed;
        distinct = v.distinct;
      })
    ]

-- In whatever order the start-up task and datagrams come, the only key that a node ever trusts is that
-- of its own key file, each peer stands under its own key, and no two peers under the same.
pub Serves-IsRegistered :
    (crypto : Crypto) (crates : KeyCrates) (boot : Boot) (bare : Bare) (port : ℕ) (up : Bool)
    (x : Executor)
    → Serves crypto crates boot bare port up x
    → IsRegistered (read_public_key crates boot.keyfile) x
unfolding handle_datagram new_executor
Serves-IsRegistered crypto crates boot bare port _ x (started_new _ e) =
    rw e (record { only_own = tt; keyed = tt; distinct = tt })
Serves-IsRegistered crypto crates boot bare port _ x (started_up earlier y _ before e) = rw e (
    start_up-IsRegistered crypto crates boot y
      (Serves-IsRegistered crypto crates boot bare port earlier y before))
Serves-IsRegistered crypto crates boot bare port up x (handled _ y _ world addr b leaves before e) =
    rw e (
      handle_message-IsRegistered crypto bare world port leaves y addr (bare.from_slice b)
        (Serves-IsRegistered crypto crates boot bare port up y before))

-- The trusted keys of a node: none before its start-up task has run, then its own.
abbrev own_entry : Boot → Option Bytes → List (Text × Bytes)
own_entry boot none = []
own_entry boot (some pk) = (or_self boot.file_name, pk) ∷ []

abbrev own_keys : KeyCrates → Boot → Bool → List (Text × Bytes)
own_keys crates boot false = []
own_keys crates boot true = own_entry boot (read_public_key crates boot.keyfile)

start_up-trusted_keys :
    (crypto : Crypto) (crates : KeyCrates) (boot : Boot) (before : Bool) (x : Executor)
    → x.trusted_keys ≡ own_keys crates boot before
    → (start_up crypto crates boot x).trusted_keys ≡ own_keys crates boot true
unfolding start_up add_trusted_key insert
start_up-trusted_keys crypto crates boot false x h =
    elim (Option-cases (read_public_key crates boot.keyfile)) [
      | inl e ↦ rw e h
      | inr (pk, e) ↦ rw e (rw h)
    ]
start_up-trusted_keys crypto crates boot true x h =
    elim (Option-cases (read_public_key crates boot.keyfile)) [
      | inl e ↦ rw e (rw e at h)
      | inr (pk, e) ↦
          let held = rw e at h in rw e (rw held (rw (bytes_eq_refl (or_self boot.file_name))))
    ]

Serves-trusted_keys :
    (crypto : Crypto) (crates : KeyCrates) (boot : Boot) (bare : Bare) (port : ℕ) (up : Bool)
    (x : Executor)
    → Serves crypto crates boot bare port up x
    → x.trusted_keys ≡ own_keys crates boot up
unfolding handle_datagram new_executor
Serves-trusted_keys crypto crates boot bare port _ x (started_new _ e) = rw e
Serves-trusted_keys crypto crates boot bare port _ x (started_up earlier y _ before e) = rw e (
    start_up-trusted_keys crypto crates boot earlier y
      (Serves-trusted_keys crypto crates boot bare port earlier y before))
Serves-trusted_keys crypto crates boot bare port up x (handled _ y _ world addr b leaves before e) =
    rw e (
      handle_message-trusted_keys crypto bare world port leaves y addr (bare.from_slice b)
      ∙ Serves-trusted_keys crypto crates boot bare port up y before)

is_trusted-own_entry :
    (boot : Boot) (own : Option Bytes) (pk : Bytes)
    → (is_trusted (own_entry boot own) pk false ≡ true) ↔ (own ≡ some pk)
unfolding is_trusted
is_trusted-own_entry boot none pk = ground arith
is_trusted-own_entry boot (some key) pk = ground (arith, bytes_eq_iff pk key)

is_trusted-own_keys :
    (crates : KeyCrates) (boot : Boot) (up : Bool) (pk : Bytes)
    → (is_trusted (own_keys crates boot up) pk false ≡ true)
      ↔ ((up ≡ true) × (read_public_key crates boot.keyfile ≡ some pk))
unfolding is_trusted
is_trusted-own_keys crates boot false pk = ground arith
is_trusted-own_keys crates boot true pk =
    let e = is_trusted-own_entry boot (read_public_key crates boot.keyfile) pk in
    (λ h. (refl, e.0 h), λ h. e.1 h.1)

begin_exec-started :
    (crypto : Crypto) (loads : Bytes → Bool) (x : Executor) (program : ProgramData)
    (opts : ExecOptions) (pid : ℕ) (store : RpStoreData)
    → (begin_exec crypto loads x program opts).1 ≡ started pid store
    → (check_self_signature crypto program.source ≡ valid)
      × (store.program_is_trusted
          ≡ some (is_trusted x.trusted_keys program.source.encoded_public_key false))
unfolding begin_exec create_pid rps_store_data
begin_exec-started crypto loads x program opts pid store e = ground arith

-- A program that a serving node starts comes from an identity whose own signature holds, and it is
-- trusted exactly if the start-up task has run and the identity's key is that of the node's key file:
-- nothing else makes it trusted, whatever datagrams came before.
pub begin_exec-trusted_iff :
    (crypto : Crypto) (crates : KeyCrates) (boot : Boot) (bare : Bare) (port : ℕ) (up : Bool)
    (x : Executor) (loads : Bytes → Bool) (program : ProgramData) (opts : ExecOptions) (pid : ℕ)
    (store : RpStoreData)
    → Serves crypto crates boot bare port up x
    → (begin_exec crypto loads x program opts).1 ≡ started pid store
    → (check_self_signature crypto program.source ≡ valid)
      × ((store.program_is_trusted ≡ some true) ↔ (
          (up ≡ true)
          × (read_public_key crates boot.keyfile ≡ some program.source.encoded_public_key)))
begin_exec-trusted_iff crypto crates boot bare port up x loads program opts pid store serves e =
    let (good, marked) = begin_exec-started crypto loads x program opts pid store e in
    let pk = program.source.encoded_public_key in
    let keys = Serves-trusted_keys crypto crates boot bare port up x serves in
    let own = is_trusted-own_keys crates boot up pk in
    (good, rw (marked, keys) (λ h. own.0 (some_inj h), λ h. ap some (own.1 h)))
