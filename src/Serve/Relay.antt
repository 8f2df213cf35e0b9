-- ===== src/Serve/Relay.antt =====
-- What a node relays to its caller.
use weverywhere.Prelude.{
  ℕ, ◌+◌, ◌≡◌, inl, inr, Bool-cases, Option-cases, List, [], ◌∷◌, Option, none, some, Bytes, All,
  All-append, leb, arith,
}
use weverywhere.Messages.{
  NetworkMessage, execute_request, basic_return_map, basic_return_list, basic_insecure_program_exit,
  basic_insecure_program_stdout, signed_fabric_message, Bare,
}
use weverywhere.Serve.Forward.{
  Receive, datagram, socket_error, rewritten, relayed, relay, relay_max_ms, relay_quiet_timeout_ms,
}

-- The uuid that a returned map or list bears.
abbrev pub return_uuid : NetworkMessage → Option Bytes
return_uuid (basic_return_map pid uuid cbor) = some uuid
return_uuid (basic_return_list pid uuid cbor) = some uuid
return_uuid _ = none

rewritten-uuid :
    (caller_uuid : Bytes) (m out : NetworkMessage)
    → rewritten caller_uuid m ≡ some out
    → return_uuid out ≡ some caller_uuid
unfolding rewritten
rewritten-uuid u (basic_return_map pid uuid cbor) out h = ground arith
rewritten-uuid u (basic_return_list pid uuid cbor) out h = ground arith
rewritten-uuid u (execute_request program) out h = absurd cc
rewritten-uuid u (basic_insecure_program_stdout pid d) out h = absurd cc
rewritten-uuid u (basic_insecure_program_exit pid code) out h = absurd cc
rewritten-uuid u (signed_fabric_message source id cbor signature) out h = absurd cc

module _ (bare : Bare) (caller_uuid : Bytes) where
  -- A datagram that decodes to a returned map or list of the caller's own request.
  abbrev pub IsForCaller : Bytes → Type 0
  IsForCaller b =
      (m : NetworkMessage) × (bare.from_slice b ≡ some m) × (return_uuid m ≡ some caller_uuid)

  relayed-IsForCaller : (o : Option NetworkMessage) → All IsForCaller (relayed bare caller_uuid o)
  relayed-IsForCaller none = tt
  relayed-IsForCaller (some m) = elim (Option-cases (rewritten caller_uuid m)) [
    | inl dropped ↦ rw (dropped, All) tt
    | inr (out, e) ↦ elim (Option-cases (bare.to_vec out)) [
      | inl failed ↦ rw (e, failed, All) tt
      | inr (b, f) ↦
          rw (e, f, All) ((out, bare.round_trip out b f, rewritten-uuid caller_uuid m out e), tt)
    ]
  ]

  -- Whatever a peer answers, and whenever, the caller is only sent returned maps and lists that bear
  -- the caller's own request uuid: no other message of a peer comes through.
  pub relay-IsForCaller :
      (elapsed : ℕ) (rs : List Receive) → All IsForCaller (relay bare caller_uuid elapsed rs)
  unfolding relay
  relay-IsForCaller elapsed [] = tt
  relay-IsForCaller elapsed (socket_error ∷ rs) = tt
  relay-IsForCaller elapsed (datagram ms body ∷ rs) = elim (Bool-cases (leb relay_max_ms elapsed)) [
    | inl over ↦ rw over tt
    | inr room ↦ elim (Bool-cases (leb relay_quiet_timeout_ms ms)) [
      | inl silent ↦ rw (room, silent) tt
      | inr heard ↦
          rw (room, heard)
            (All-append IsForCaller (relayed bare caller_uuid (bare.from_slice body)) _
              (relayed-IsForCaller (bare.from_slice body)) (relay-IsForCaller (elapsed + ms) rs))
    ]
  ]
