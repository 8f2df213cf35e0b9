-- ===== src/Executor/Program.antt =====
-- The data of src/executor/mod.rs that travels with a program: `ProgramData` and its builder, what a
-- program returns, and its requests for replication.
use weverywhere.Prelude.{ℕ, List, [], Option, none, some, Bytes, Text, replicate}
use weverywhere.Prelude.Utf8.{codes}
use weverywhere.Config.Identity.{IdentityData}

pub record ProgramData : Type 0 where
  pub source : IdentityData
  pub human_name : Text
  pub wasm_program_bytes : Bytes
  pub signature : Bytes
  pub request_uuid : Bytes
  pub depth_budget : ℕ
  pub visited : List Bytes
  pub arg_list : List Text
  pub arg_map : List (Text × Text)

-- The slot that the discovery imports write into; a uuid has 16 bytes.
pub record ExecReturn : Type 0 where
  pub map : Option Bytes
  pub forward_uuid : Option Bytes

-- There is one scope, the fabric.
pub record ReplicateRequest : Type 0 where
  pub arg_list : List Text
  pub arg_map : List (Text × Text)

pub record ProgramDataBuilder : Type 0 where
  pub source : Option IdentityData
  pub human_name : Text
  pub wasm_program_bytes : Bytes
  pub signature : Bytes
  pub request_uuid : Bytes
  pub depth_budget : ℕ
  pub visited : List Bytes
  pub arg_list : List Text
  pub arg_map : List (Text × Text)

unfoldable pub new_builder : ProgramDataBuilder
new_builder = record {
  source = none;
  human_name = codes "UNSET_NAME";
  wasm_program_bytes = [];
  signature = [];
  request_uuid = replicate 16 0;
  depth_budget = 0;
  visited = [];
  arg_list = [];
  arg_map = [];
}

unfoldable pub set_args : ProgramDataBuilder → List Text → List (Text × Text) → ProgramDataBuilder
set_args b arg_list arg_map = record b { arg_list = arg_list; arg_map = arg_map }

unfoldable pub set_request_context :
    ProgramDataBuilder → Bytes → ℕ → List Bytes → ProgramDataBuilder
set_request_context b request_uuid depth_budget visited = record b {
  request_uuid = request_uuid;
  depth_budget = depth_budget;
  visited = visited;
}

unfoldable pub set_source : ProgramDataBuilder → IdentityData → ProgramDataBuilder
set_source b source = record b { source = some source }

unfoldable pub set_human_name : ProgramDataBuilder → Text → ProgramDataBuilder
set_human_name b name = record b { human_name = name }

unfoldable pub set_wasm_program_bytes : ProgramDataBuilder → Bytes → ProgramDataBuilder
set_wasm_program_bytes b wasm = record b { wasm_program_bytes = wasm }

unfoldable pub set_signature : ProgramDataBuilder → Bytes → ProgramDataBuilder
set_signature b signature = record b { signature = signature }

-- `none` is the error that the source is missing.
unfoldable pub build : ProgramDataBuilder → Option ProgramData
build b = elim b.source [
  | none ↦ none
  | some source ↦ some (record {
    source = source;
    human_name = b.human_name;
    wasm_program_bytes = b.wasm_program_bytes;
    signature = b.signature;
    request_uuid = b.request_uuid;
    depth_budget = b.depth_budget;
    visited = b.visited;
    arg_list = b.arg_list;
    arg_map = b.arg_map;
  })
]
