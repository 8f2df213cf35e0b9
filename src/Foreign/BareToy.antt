-- ===== src/Foreign/BareToy.antt =====
-- A concrete instance of the message codec, for the tests: it encodes every message, of the requests
-- to execute those without arguments and visited nodes, with each text and byte string behind its length.
use weverywhere.Prelude.{
  zero, suc, ◌≡◌, refl, List, [], ◌∷◌, ◌++◌, Option, none, some, Bytes, Text, take, drop, length,
  take_append, drop_append, some_inj,
}
use weverywhere.Executor.Program.{ProgramData}
use weverywhere.Messages.{
  NetworkMessage, execute_request, basic_insecure_program_stdout, basic_insecure_program_exit,
  basic_return_map, basic_return_list, signed_fabric_message, Bare,
}

abbrev put : Bytes → Bytes → Bytes
put l rest = length l ∷ (l ++ rest)

abbrev if_bare : List Bytes → List Text → List (Text × Text) → Bytes → Option Bytes
if_bare [] [] [] b = some b
if_bare _ _ _ b = none

unfoldable pub toy_bare_to_vec : NetworkMessage → Option Bytes
toy_bare_to_vec (execute_request p) = if_bare p.visited p.arg_list p.arg_map (
    5
    ∷ p.depth_budget
    ∷ p.source.generated_at_utc0_epoch_s
    ∷ p.source.validity_s
    ∷ put p.source.human_name (
        put p.source.encoded_public_key_fmt (
          put p.source.encoded_public_key (
            put p.source.signature
              (put p.human_name (put p.wasm_program_bytes (put p.request_uuid p.signature)))))))
toy_bare_to_vec (basic_insecure_program_stdout pid d) = some (0 ∷ pid ∷ d)
toy_bare_to_vec (basic_insecure_program_exit pid code) = some (1 ∷ pid ∷ code ∷ [])
toy_bare_to_vec (basic_return_map pid uuid cbor) = some (2 ∷ pid ∷ put uuid cbor)
toy_bare_to_vec (basic_return_list pid uuid cbor) = some (3 ∷ pid ∷ put uuid cbor)
toy_bare_to_vec (signed_fabric_message source id cbor signature) = some (
    4
    ∷ source.generated_at_utc0_epoch_s
    ∷ source.validity_s
    ∷ put source.human_name (
        put source.encoded_public_key_fmt
          (put source.encoded_public_key (put source.signature (put id (put cbor signature))))))

abbrev got {ℓ} : {A : Type ℓ} → Bytes → (Bytes → Bytes → Option A) → Option A
got [] k = none
got (n ∷ r) k = k (take n r) (drop n r)

unfoldable pub toy_bare_from_slice : Bytes → Option NetworkMessage
toy_bare_from_slice (zero ∷ pid ∷ d) = some (basic_insecure_program_stdout pid d)
toy_bare_from_slice ((suc zero) ∷ pid ∷ code ∷ []) = some (basic_insecure_program_exit pid code)
toy_bare_from_slice ((suc (suc zero)) ∷ pid ∷ r) =
    got r λ uuid cbor. some (basic_return_map pid uuid cbor)
toy_bare_from_slice ((suc (suc (suc zero))) ∷ pid ∷ r) =
    got r λ uuid cbor. some (basic_return_list pid uuid cbor)
toy_bare_from_slice ((suc (suc (suc (suc zero)))) ∷ time ∷ validity ∷ r) = got r λ name r1.
    got r1 λ fmt r2. got r2 λ key r3. got r3 λ self r4. got r4 λ id r5. got r5 λ cbor signature.
      some (
        signed_fabric_message
          (record {
            human_name = name;
            generated_at_utc0_epoch_s = time;
            validity_s = validity;
            encoded_public_key_fmt = fmt;
            encoded_public_key = key;
            signature = self;
          })
          id cbor signature)
toy_bare_from_slice ((suc (suc (suc (suc (suc zero))))) ∷ depth ∷ time ∷ validity ∷ r) =
    got r λ name r1. got r1 λ fmt r2. got r2 λ key r3. got r3 λ self r4. got r4 λ label r5.
      got r5 λ wasm r6. got r6 λ uuid signature. some (
        execute_request (record {
          source = record {
            human_name = name;
            generated_at_utc0_epoch_s = time;
            validity_s = validity;
            encoded_public_key_fmt = fmt;
            encoded_public_key = key;
            signature = self;
          };
          human_name = label;
          wasm_program_bytes = wasm;
          signature = signature;
          request_uuid = uuid;
          depth_budget = depth;
          visited = [];
          arg_list = [];
          arg_map = [];
        }))
toy_bare_from_slice _ = none

-- A program with these lists encodes only if they are empty.
if_bare-empty :
    (p : ProgramData) (visited : List Bytes) (arg_list : List Text) (arg_map : List (Text × Text))
    (b : Bytes)
    → let q = record p { visited = visited; arg_list = arg_list; arg_map = arg_map } in
      toy_bare_to_vec (execute_request q) ≡ some b
      → toy_bare_from_slice b ≡ some (execute_request q)
unfolding toy_bare_to_vec toy_bare_from_slice
if_bare-empty p (v ∷ vs) arg_list arg_map b h = cc h
if_bare-empty p [] (a ∷ as_) arg_map b h = cc h
if_bare-empty p [] [] (m ∷ ms) b h = cc h
if_bare-empty p [] [] [] b h = rw⁻¹ (some_inj h) (
    rw
      (
        take_append p.source.human_name,
        drop_append p.source.human_name,
        take_append p.source.encoded_public_key_fmt,
        drop_append p.source.encoded_public_key_fmt,
        take_append p.source.encoded_public_key,
        drop_append p.source.encoded_public_key,
        take_append p.source.signature,
        drop_append p.source.signature,
        take_append p.human_name,
        drop_append p.human_name,
        take_append p.wasm_program_bytes,
        drop_append p.wasm_program_bytes,
        take_append p.request_uuid,
        drop_append p.request_uuid,
      )
      refl)

pub toy_bare-round_trip :
    (m : NetworkMessage) (b : Bytes) → toy_bare_to_vec m ≡ some b → toy_bare_from_slice b ≡ some m
unfolding toy_bare_to_vec toy_bare_from_slice
toy_bare-round_trip (execute_request p) b h = if_bare-empty p p.visited p.arg_list p.arg_map b h
toy_bare-round_trip (basic_insecure_program_stdout pid d) b h = rw⁻¹ (some_inj h) refl
toy_bare-round_trip (basic_insecure_program_exit pid code) b h = rw⁻¹ (some_inj h) refl
toy_bare-round_trip (basic_return_map pid uuid cbor) b h =
    rw⁻¹ (some_inj h) (rw (take_append uuid cbor, drop_append uuid cbor) refl)
toy_bare-round_trip (basic_return_list pid uuid cbor) b h =
    rw⁻¹ (some_inj h) (rw (take_append uuid cbor, drop_append uuid cbor) refl)
toy_bare-round_trip (signed_fabric_message source id cbor signature) b h = rw⁻¹ (some_inj h) (
    rw
      (
        take_append source.human_name,
        drop_append source.human_name,
        take_append source.encoded_public_key_fmt,
        drop_append source.encoded_public_key_fmt,
        take_append source.encoded_public_key,
        drop_append source.encoded_public_key,
        take_append source.signature,
        drop_append source.signature,
        take_append id,
        drop_append id,
        take_append cbor,
        drop_append cbor,
      )
      refl)

abbrev pub toy_bare : Bare
toy_bare = record {
  to_vec = toy_bare_to_vec;
  from_slice = toy_bare_from_slice;
  round_trip = toy_bare-round_trip;
}
