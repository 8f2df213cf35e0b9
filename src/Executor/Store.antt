-- ===== src/Executor/Store.antt =====
-- `RpStoreData` of src/executor/mod.rs: what the imports of a running program read and change.
use weverywhere.Prelude.{ℕ, Bool, List, Option, Bytes, Text}
use weverywhere.Config.Identity.{IdentityData}
use weverywhere.MessageStore.{MessageStore}
use weverywhere.Tty.Handle.{TtyHandle}
use weverywhere.Executor.Program.{ExecReturn, ReplicateRequest}

-- The sending side of an unbounded channel: a send fails once the receiver is gone.
pub record Sink {ℓ} (A : Type ℓ) : Type ℓ where
  pub is_open : Bool
  pub sent : List A

-- A `none` in `program_is_trusted` is a lock that `try_read` does not get, in `messages` and
-- `return_slot` a poisoned lock.
pub record RpStoreData : Type 0 where
  pub program_is_trusted : Option Bool
  pub hostname : Text
  pub peer_reports : List Text
  pub signing_key : Option Bytes
  pub our_pubkey : Bytes
  pub caller_pubkey : Bytes
  pub caller_name : Text
  pub messages : Option MessageStore
  pub trusted_pubkeys : List Bytes
  pub replicate_tx : Option (Sink ReplicateRequest)
  pub fabric_send_tx : Option (Sink Bytes)
  pub identity_data : Option IdentityData
  pub tty : Option TtyHandle
  pub depth : ℕ
  pub node_addr : Option Text
  pub arg_list : List Text
  pub arg_map : List (Text × Text)
  pub return_slot : Option ExecReturn

-- A running program: its memory, the blocks it printed, and its store data.
pub record Guest : Type 0 where
  pub memory : Option Bytes
  pub printed : List Bytes
  pub store : RpStoreData
