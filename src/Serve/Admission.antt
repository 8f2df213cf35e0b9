-- ===== src/Serve/Admission.antt =====
-- Which datagrams change what a node knows.
use weverywhere.Prelude.{
  ℕ, ◌≡◌, refl, ap, ◌∙◌, ◌↔◌, inl, inr, ◌⊎◌, Bool, true, false, List, [], ◌∷◌, some, Bytes, arith,
  sym, subst,
}
use weverywhere.Prelude.Ip.{SocketAddr}
use weverywhere.Foreign.Crypto.{Crypto}
use weverywhere.Config.Identity.{
  IdentityData, Checked, valid, key_not_32_bytes, bad_key, bad_signature, mismatch, is_valid,
  check_self_signature, verify_payload,
}
use weverywhere.Messages.{Bare}
use weverywhere.Executor.Program.{ProgramData}
use weverywhere.Executor.State.{
  Executor, PeerInfo, ExecOptions, started, begin_exec, create_pid, is_trusted, rps_store_data,
  note_peer, record_fabric_message, lookup, to_hex,
}
use weverywhere.Serve.{
  World, quiet, SigEvent, sig_event, fabric_push, exec_opts, handle_fabric_message,
  handle_execute_request, after_begin,
}
use weverywhere.Serve.Receipt.{lookup-insert, IsReceived, received}

is_valid-cases :
    (crypto : Crypto) (c : Checked)
    → ((c ≡ valid) × (is_valid crypto c ≡ true)) ⊎ ((c ≡ valid → ⊥) × (is_valid crypto c ≡ false))
is_valid-cases crypto valid = inl (refl, refl)
is_valid-cases crypto key_not_32_bytes = inr (λ e. cc, refl)
is_valid-cases crypto bad_key = inr (λ e. cc, refl)
is_valid-cases crypto bad_signature = inr (λ e. cc, refl)
is_valid-cases crypto mismatch = inr (λ e. cc, refl)

-- The two cases, by the calls of the handler.
pub handle_fabric_message-cases :
    (crypto : Crypto) (bare : Bare) (world : World) (port : ℕ) (x : Executor) (addr : SocketAddr)
    (source : IdentityData) (id cbor_data signature : Bytes)
    → let accepted =
        (check_self_signature crypto source ≡ valid)
        × (verify_payload crypto source id cbor_data signature ≡ valid) in
      let handled =
        handle_fabric_message crypto bare world port x addr source id cbor_data signature in
      (accepted
        × (handled.executor
            ≡ (record_fabric_message
                (note_peer x world.now addr source)
                (fabric_push crypto bare world port source id cbor_data)).0)
        × (handled.logged ≡ sig_event true addr source ∷ []))
      ⊎ ((accepted → ⊥)
          × (handled.executor ≡ x)
          × (handled.logged ≡ sig_event false addr source ∷ []))
unfolding handle_fabric_message
handle_fabric_message-cases crypto bare world port x addr source id cbor_data signature =
    elim (is_valid-cases crypto (check_self_signature crypto source)) [
      | inr (bad, refused) ↦ rw refused (inr (λ a. bad a.0, refl, refl))
      | inl (good, accepted) ↦
          elim (is_valid-cases crypto (verify_payload crypto source id cbor_data signature)) [
            | inr (bad, refused) ↦ rw (accepted, refused) (inr (λ a. bad a.1, refl, refl))
            | inl (fine, ok) ↦ rw (accepted, ok) (inl ((good, fine), refl, refl))
          ]
    ]

-- A signed message whose sender's identity and payload both verify is received: it is pushed to the
-- store, unless that is poisoned, with the sender's name and key, its id, its bytes and the time;
-- and the sender is listed as a peer under its key, with the address it came from, trusted exactly if
-- its key is. No other peer and no trusted key changes. Any other message changes nothing and is
-- logged as bad.
pub handle_fabric_message-outcome :
    (crypto : Crypto) (bare : Bare) (world : World) (port : ℕ) (x : Executor) (addr : SocketAddr)
    (source : IdentityData) (id cbor_data signature : Bytes)
    → let accepted =
        (check_self_signature crypto source ≡ valid)
        × (verify_payload crypto source id cbor_data signature ≡ valid) in
      let handled =
        handle_fabric_message crypto bare world port x addr source id cbor_data signature in
      (accepted
        × IsReceived x handled.executor world.now addr source id cbor_data
        × (handled.logged
            ≡ record {
              ok = true;
              addr = addr;
              pubkey = source.encoded_public_key;
              name = source.human_name;
            }
              ∷ []))
      ⊎ ((accepted → ⊥)
          × (handled.executor ≡ x)
          × (handled.logged
              ≡ record {
                ok = false;
                addr = addr;
                pubkey = source.encoded_public_key;
                name = source.human_name;
              }
                ∷ []))
handle_fabric_message-outcome crypto bare world port x addr source id cbor_data signature =
    elim (handle_fabric_message-cases crypto bare world port x addr source id cbor_data signature) [
      | inl (accepted, e, logged) ↦ inl (
        accepted,
        subst (λ y. IsReceived x y world.now addr source id cbor_data) (sym e)
            (received crypto bare world port x addr source id cbor_data),
        logged,
      )
      | inr (refused, e, logged) ↦ inr (refused, e, logged)
    ]

-- A program starts exactly if its source's self-signature is valid and wasmtime loads it.
pub begin_exec-starts_iff :
    (crypto : Crypto) (loads : Bytes → Bool) (x : Executor) (program : ProgramData)
    (opts : ExecOptions)
    → ((begin_exec crypto loads x program opts).1
        ≡ started x.next_pid (
            rps_store_data x program
              (is_trusted x.trusted_keys program.source.encoded_public_key false)
              opts))
      ↔ ((check_self_signature crypto program.source ≡ valid)
          × (loads program.wasm_program_bytes ≡ true))
unfolding begin_exec create_pid
begin_exec-starts_iff crypto loads x program opts = ground arith

-- The trust given to a program rests on its source alone: another program, with any bytes and any
-- signature but the same source, is started with the same trust, if wasmtime loads both.
pub begin_exec-any_program :
    (crypto : Crypto) (loads : Bytes → Bool) (x : Executor) (p q : ProgramData) (opts : ExecOptions)
    → q.source ≡ p.source
    → check_self_signature crypto p.source ≡ valid
    → loads p.wasm_program_bytes ≡ true
    → loads q.wasm_program_bytes ≡ true
    → let trusted = is_trusted x.trusted_keys p.source.encoded_public_key false in
      ((begin_exec crypto loads x p opts).1 ≡ started x.next_pid (rps_store_data x p trusted opts))
      × ((begin_exec crypto loads x q opts).1
          ≡ started x.next_pid (rps_store_data x q trusted opts))
unfolding begin_exec create_pid
begin_exec-any_program crypto loads x p q opts same good lp lq =
    let good' : check_self_signature crypto q.source ≡ valid =
      ap (check_self_signature crypto) same ∙ good in
    (
      (begin_exec-starts_iff crypto loads x p opts).1 (good, lp),
      (begin_exec-starts_iff crypto loads x q opts).1 (good', lq)
          ∙ ap
              (λ (s : IdentityData).
                started x.next_pid
                  (rps_store_data x q (is_trusted x.trusted_keys s.encoded_public_key false) opts))
              same,
    )

begin_exec-refused :
    (crypto : Crypto) (bare : Bare) (world : World) (port : ℕ) (x : Executor) (addr : SocketAddr)
    (program : ProgramData) (opts : ExecOptions) (log : List SigEvent)
    → is_valid crypto (check_self_signature crypto program.source) ≡ false
    → after_begin crypto bare world port log addr program
        (begin_exec crypto world.loads x program opts)
      ≡ quiet x log
unfolding begin_exec
begin_exec-refused crypto bare world port x addr program opts log forged = ground arith

-- A request to execute whose identity is forged is not run and is logged as bad, yet it overwrites
-- what the node knows of the peer with that key: the peer is listed with the forger's address and
-- the name the forger chose.
pub handle_execute_request-forged :
    (crypto : Crypto) (bare : Bare) (world : World) (port : ℕ) (x : Executor) (addr : SocketAddr)
    (program : ProgramData)
    → is_valid crypto (check_self_signature crypto program.source) ≡ false
    → let handled = handle_execute_request crypto bare world port x addr program in
      (handled.sent ≡ [])
      × (handled.logged ≡ sig_event false addr program.source ∷ [])
      × ((p : PeerInfo) × (lookup (to_hex program.source.encoded_public_key) handled.executor.peers
            ≡ some p)
          × (p.last_addr ≡ addr)
          × (p.human_name ≡ program.source.human_name))
unfolding handle_execute_request note_peer
handle_execute_request-forged crypto bare world port x addr program forged =
    let refused =
      begin_exec-refused crypto bare world port (note_peer x world.now addr program.source) addr
        program (exec_opts crypto bare world port addr) (sig_event false addr program.source ∷ [])
        forged in
    rw (forged, refused) (refl, refl, (_, lookup-insert _ _ x.peers, refl, refl))
