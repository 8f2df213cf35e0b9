-- ===== src/Serve/Ends.antt =====
-- What ends the loop of `serve_group` in src/command/serve.rs, and what does not.
use weverywhere.Prelude.{
  ℕ, ◌≡◌, refl, ap, ◌∙◌, inl, inr, List, [], ◌∷◌, Bool, true, false, Option, none, some, some_inj,
  ◌↔◌, Bytes, arith, Option-cases, subst, Bool-cases, All, flat_map, map, take,
}
use weverywhere.Prelude.Ip.{SocketAddr}
use weverywhere.Foreign.Crypto.{Crypto}
use weverywhere.KeyFiles.{KeyCrates}
use weverywhere.Executor.Start.{Boot}
use weverywhere.Config.Identity.{IdentityData, check_self_signature, is_valid}
use weverywhere.Messages.{
  Bare, NetworkMessage, execute_request, signed_fabric_message, basic_return_map, basic_return_list,
  basic_insecure_program_exit, basic_insecure_program_stdout,
}
use weverywhere.Executor.State.{
  Executor, note_peer, begin_exec, Begun, started, bad_identity, not_loaded,
}
use weverywhere.Executor.Store.{RpStoreData}
use weverywhere.Executor.Program.{ProgramData}
use weverywhere.Serve.{
  World, Ran, SigEvent, after_exit, after_begin, exec_opts, handle_datagram, handle_execute_request,
  handle_fabric_message, handle_message, encoded, is_taken, sig_event,
}
use weverywhere.Serve.Registries.{LeavesRegistries}
use weverywhere.Serve.Trust.{Serves, handled}
use weverywhere.Serve.Listen.{Arrival, turn, listen}

-- An exit that is not reported to the caller: there is no code but a spawn error, or the socket does
-- not take the message with the code.
abbrev pub IsUnreported : Bare → World → SocketAddr → ℕ → Option ℕ → Type 0
IsUnreported bare world addr pid none = Unit
IsUnreported bare world addr pid (some code) =
    (reply : Bytes) × (bare.to_vec (basic_insecure_program_exit pid code) ≡ some reply)
    × (world.sends reply addr ≡ false)

module _ (crypto : Crypto) (bare : Bare) (world : World) (port : ℕ) where
  -- A program was started, and its end is not reported.
  abbrev pub Fails : SocketAddr → Executor × Begun → Type 0
  Fails addr (y, started pid store) =
      IsUnreported bare world addr pid (world.run pid store y).1.exit
  Fails addr (y, bad_identity e) = ⊥
  Fails addr (y, not_loaded) = ⊥

  abbrev reply_to : SocketAddr → Option Bytes → List (Bytes × SocketAddr)
  reply_to addr o = elim o [ none ↦ [] | some b ↦ (b, addr) ∷ [] ]

  replies :
      (o : Option Bytes) (addr : SocketAddr)
      → (is_taken world.sends (reply_to addr o) ≡ false)
        ↔ ((reply : Bytes) × (o ≡ some reply) × (world.sends reply addr ≡ false))
  replies none addr = ground arith
  replies (some b) addr =
      ((λ h. (b, refl, h)), (λ (reply, e, h). ap (λ r. world.sends r addr) (some_inj e) ∙ h))

  is_taken-fails_iff :
      (m : NetworkMessage) (addr : SocketAddr)
      → (is_taken world.sends (encoded bare m addr) ≡ false)
        ↔ ((reply : Bytes) × (bare.to_vec m ≡ some reply) × (world.sends reply addr ≡ false))
  is_taken-fails_iff m addr = replies (bare.to_vec m) addr

  after_exit-ends_iff :
      (log : List SigEvent) (addr : SocketAddr) (program : ProgramData) (pid : ℕ) (x : Executor)
      (ran : Ran)
      → ((after_exit crypto bare world port log addr program pid (x, ran)).goes_on ≡ false)
        ↔ IsUnreported bare world addr pid ran.exit
  unfolding after_exit
  after_exit-ends_iff log addr program pid x ran = elim (Option-cases ran.exit) [
    | inl e ↦ rw e ((λ h. tt), (λ h. refl))
    | inr (code, e) ↦ rw e (is_taken-fails_iff (basic_insecure_program_exit pid code) addr)
  ]

  after_begin-ends_iff :
      (log : List SigEvent) (addr : SocketAddr) (program : ProgramData) (r : Executor × Begun)
      → ((after_begin crypto bare world port log addr program r).goes_on ≡ false) ↔ Fails addr r
  after_begin-ends_iff log addr program (y, started pid store) =
      after_exit-ends_iff log addr program pid (world.run pid store y).0 (world.run pid store y).1
  after_begin-ends_iff log addr program (y, bad_identity e) = ground arith
  after_begin-ends_iff log addr program (y, not_loaded) = ground arith

  handle_fabric_message-goes_on :
      (x : Executor) (addr : SocketAddr) (source : IdentityData) (id b sig : Bytes)
      → (handle_fabric_message crypto bare world port x addr source id b sig).goes_on ≡ true
  unfolding handle_fabric_message
  handle_fabric_message-goes_on x addr source id b sig = ground arith

  abbrev EndsAt : Executor → SocketAddr → ProgramData → Type 0
  EndsAt x addr program = Fails addr (
      begin_exec crypto world.loads (note_peer x world.now addr program.source) program
        (exec_opts crypto bare world port addr))

  handle_message-ends_iff :
      (x : Executor) (addr : SocketAddr) (m : Option NetworkMessage)
      → ((handle_message crypto bare world port x addr m).goes_on ≡ false)
        ↔ ((program : ProgramData) × (m ≡ some (execute_request program)) × EndsAt x addr program)
  unfolding handle_execute_request
  handle_message-ends_iff x addr (some (execute_request program)) =
      let e =
        after_begin-ends_iff
          (sig_event (is_valid crypto (check_self_signature crypto program.source)) addr
              program.source
            ∷ [])
          addr program
          (begin_exec crypto world.loads (note_peer x world.now addr program.source) program
            (exec_opts crypto bare world port addr)) in
      (
        (λ h. (program, refl, e.0 h)),
        (λ (q, same, f). let eq : q ≡ program = cc in e.1 (subst (EndsAt x addr) eq f)),
      )
  handle_message-ends_iff x addr (some (signed_fabric_message source id b sig)) =
      let on = handle_fabric_message-goes_on x addr source id b sig in
      ((λ h. ground arith), (λ (q, same, f). ground arith))
  handle_message-ends_iff x addr none = ground arith
  handle_message-ends_iff x addr (some (basic_return_map _ _ _)) = ground arith
  handle_message-ends_iff x addr (some (basic_return_list _ _ _)) = ground arith
  handle_message-ends_iff x addr (some (basic_insecure_program_exit _ _)) = ground arith
  handle_message-ends_iff x addr (some (basic_insecure_program_stdout _ _)) = ground arith

  -- A datagram ends the listener exactly if it is a request to execute whose program is started and
  -- whose end is not reported: the program leaves a spawn error in place of an exit code, or the
  -- socket does not take the message with the code. No other datagram ends it, malformed or forged.
  pub handle_datagram-ends_iff :
      (x : Executor) (addr : SocketAddr) (b : Bytes)
      → ((handle_datagram crypto bare world port x addr b).goes_on ≡ false) ↔ (
          (program : ProgramData) × (bare.from_slice b ≡ some (execute_request program))
          × Fails addr (
              begin_exec crypto world.loads
                (note_peer x world.now addr program.source)
                program
                (exec_opts crypto bare world port addr)))
  unfolding handle_datagram
  handle_datagram-ends_iff x addr b = handle_message-ends_iff x addr (bare.from_slice b)

-- Programs leave a code, and the socket takes what it is given.
pub record IsReporting (world : World) : Type 0 where
  pub leaves_code :
      (pid : ℕ) (store : RpStoreData) (x : Executor) → (world.run pid store x).1.exit ≡ none → ⊥
  pub sends_all : (b : Bytes) (to : SocketAddr) → world.sends b to ≡ true

reports :
    (bare : Bare) (world : World) (addr : SocketAddr) (pid : ℕ) (exit : Option ℕ)
    → IsReporting world
    → (exit ≡ none → ⊥)
    → IsUnreported bare world addr pid exit
    → ⊥
reports bare world addr pid none r coded h = coded refl
reports bare world addr pid (some code) r coded (reply, e, h) =
    let taken = r.sends_all reply addr in ground arith

Fails-never :
    (crypto : Crypto) (bare : Bare) (world : World) (port : ℕ) (addr : SocketAddr)
    (r : Executor × Begun)
    → IsReporting world
    → Fails crypto bare world port addr r
    → ⊥
Fails-never crypto bare world port addr (y, started pid store) r h =
    reports bare world addr pid (world.run pid store y).1.exit r (r.leaves_code pid store y) h
Fails-never crypto bare world port addr (y, bad_identity _) r h = elim h [ ]
Fails-never crypto bare world port addr (y, not_loaded) r h = elim h [ ]

module _ (crypto : Crypto) (bare : Bare) (port : ℕ) where
  turn-goes_on :
      (x : Executor) (a : Arrival)
      → IsReporting a.world
      → (turn crypto bare port x a).goes_on ≡ true
  turn-goes_on x a r = elim (Bool-cases (turn crypto bare port x a).goes_on) [
    | inl on ↦ on
    | inr off ↦
        let b = take 65536 a.bytes in
        let (program, e, f) =
          (handle_datagram-ends_iff crypto bare a.world port x a.addr b).0 off in
        elim (Fails-never crypto bare a.world port a.addr _ r f) [ ]
  ]

  abbrev pub all_turns : Executor → List Arrival → Executor
  all_turns x [] = x
  all_turns x (a ∷ rest) = all_turns (turn crypto bare port x a).executor rest

  -- Where programs leave a code and the socket takes the replies, no datagrams, malformed or forged
  -- ones among them, end the loop: each is handled on what the ones before left.
  pub listen-survives :
      (x : Executor) (arrivals : List Arrival)
      → All (λ a. IsReporting a.world) arrivals
      → let l = listen crypto bare port x (map some arrivals) in
        (l.ended ≡ false) × (l.executor ≡ all_turns x arrivals)
  unfolding listen
  listen-survives x [] h = (refl, refl)
  listen-survives x (a ∷ rest) (r, h) =
      rw (turn-goes_on x a r) (listen-survives (turn crypto bare port x a).executor rest h)

  abbrev from_option : Option Arrival → List Arrival
  from_option none = []
  from_option (some a) = a ∷ []

  -- What the loop makes of a node that serves is a node that serves.
  pub listen-Serves :
      (crates : KeyCrates) (boot : Boot) (up : Bool) (x : Executor)
      (arrivals : List (Option Arrival))
      → All (λ a. LeavesRegistries a.world) (flat_map from_option arrivals)
      → Serves crypto crates boot bare port up x
      → Serves crypto crates boot bare port up (listen crypto bare port x arrivals).executor
  unfolding listen
  listen-Serves crates boot up x [] h s = s
  listen-Serves crates boot up x (none ∷ rest) h s = s
  listen-Serves crates boot up x (some a ∷ rest) (leaves, h) s =
      let once =
        handled up x (turn crypto bare port x a).executor a.world a.addr (take 65536 a.bytes) leaves
          s refl in
      elim (Bool-cases (turn crypto bare port x a).goes_on) [
        | inl on ↦
            rw on (listen-Serves crates boot up (turn crypto bare port x a).executor rest h once)
        | inr off ↦ rw off once
      ]
