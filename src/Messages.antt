-- ===== src/Messages.antt =====
-- src/messages/mod.rs: the messages of the wire.
use weverywhere.Prelude.{ℕ, ◌≡◌, Option, some, Bytes}
use weverywhere.Config.Identity.{IdentityData}
use weverywhere.Executor.Program.{ProgramData}

pub data NetworkMessage : Type 0 where
  execute_request : ProgramData → NetworkMessage
  basic_insecure_program_stdout : (from_pid : ℕ) (stdout_data : Bytes) → NetworkMessage
  basic_insecure_program_exit : (from_pid exit_code : ℕ) → NetworkMessage
  basic_return_map : (from_pid : ℕ) (request_uuid cbor_data : Bytes) → NetworkMessage
  basic_return_list : (from_pid : ℕ) (request_uuid cbor_data : Bytes) → NetworkMessage
  signed_fabric_message : (source : IdentityData) (id cbor_data signature : Bytes) → NetworkMessage

-- serde_bare at this type: what is encoded decodes to itself.
pub record Bare : Type 0 where
  pub to_vec : NetworkMessage → Option Bytes
  pub from_slice : Bytes → Option NetworkMessage
  pub round_trip : (m : NetworkMessage) (b : Bytes) → to_vec m ≡ some b → from_slice b ≡ some m
