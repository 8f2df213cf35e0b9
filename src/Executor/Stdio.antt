-- ===== src/Executor/Stdio.antt =====
-- src/executor/wasi_adapters.rs: the forwarder that streams a program's output to its caller.
use weverywhere.Prelude.{
  ℕ, ◌+◌, ◌≡◌, ◌≢◌, refl, Bool, true, false, List, [], ◌∷◌, Option, none, some, Bytes, arith, ltb,
  if◌then◌else◌, drop, length, Option-cases, inl, inr,
}
use weverywhere.Prelude.Ip.{SocketAddr}
use weverywhere.Messages.{basic_insecure_program_stdout, Bare}

pub record WasiStdioSimpleForwarder : Type 0 where
  pub our_pid : ℕ
  pub reply_to : Option SocketAddr
  pub has_socket : Bool
  pub current_encoded_msg : Option Bytes
  pub current_encoded_sent : ℕ

unfoldable pub new_maybe_udp : Option SocketAddr → Bool → WasiStdioSimpleForwarder
new_maybe_udp reply_to has_socket = record {
  our_pid = 0;
  reply_to = reply_to;
  has_socket = has_socket;
  current_encoded_msg = none;
  current_encoded_sent = 0;
}

unfoldable pub new_nop : WasiStdioSimpleForwarder
unfolding new_maybe_udp
new_nop = new_maybe_udp none false

unfoldable pub new_udp : SocketAddr → WasiStdioSimpleForwarder
unfolding new_maybe_udp
new_udp reply_to = new_maybe_udp (some reply_to) true

unfoldable pub set_pid : WasiStdioSimpleForwarder → ℕ → WasiStdioSimpleForwarder
set_pid f pid = record f { our_pid = pid }

-- What a poll of the socket's send answers, and a poll of the write.
pub data Poll : Type 0 where
  ready_ok : ℕ → Poll
  ready_err pending : Poll

-- The sending loop, over the answers that the socket gives in turn; a socket that has none left is
-- pending. The last parts are the datagrams handed to the socket, and the outcome of an early return.
unfoldable pub send_frame : Bytes → ℕ → List Poll → ℕ × (List Bytes × Option Poll)
send_frame frame sent [] =
    if ltb sent (length frame) then (sent, ([], some pending)) else (sent, ([], none))
send_frame frame sent (ready_ok n ∷ ps) =
    let later = send_frame frame (sent + n) ps in
    if ltb sent (length frame)
    then (later.0, (drop sent frame ∷ later.1.0, later.1.1))
    else (sent, ([], none))
send_frame frame sent (ready_err ∷ ps) =
    if ltb sent (length frame)
    then (sent, (drop sent frame ∷ [], some ready_err))
    else (sent, ([], none))
send_frame frame sent (pending ∷ ps) =
    if ltb sent (length frame)
    then (sent, (drop sent frame ∷ [], some pending))
    else (sent, ([], none))

-- Where the loop does not return early the frame is cleared and the write is reported as done.
abbrev pub after_send :
    WasiStdioSimpleForwarder
    → Bytes
    → Bytes
    → ℕ × (List Bytes × Option Poll)
    → WasiStdioSimpleForwarder × (List Bytes × Poll)
after_send f buf frame (sent, (sends, some early)) =
    (record f { current_encoded_msg = some frame; current_encoded_sent = sent }, (sends, early))
after_send f buf frame (sent, (sends, none)) = (
  record f { current_encoded_msg = none; current_encoded_sent = sent },
  (sends, ready_ok (length buf)),
)

-- `poll_write`: the forwarder after it, the datagrams handed to the socket, and what it answers.
unfoldable pub poll_write :
    Bare
    → WasiStdioSimpleForwarder
    → Bytes
    → List Poll
    → WasiStdioSimpleForwarder × (List Bytes × Poll)
poll_write bare f buf answers = elim f.reply_to [
  | none ↦ (f, ([], ready_ok (length buf)))
  | some reply_to ↦ elim f.has_socket [
    | false ↦ (f, ([], ready_ok (length buf)))
    | true ↦ elim f.current_encoded_msg [
      | some frame ↦ (record f { current_encoded_msg = none }, ([], ready_ok (length buf)))
      | none ↦ elim (bare.to_vec (basic_insecure_program_stdout f.our_pid buf)) [
        | none ↦ (f, ([], ready_ok (length buf)))
        | some frame ↦ after_send f buf frame (send_frame frame 0 answers)
      ]
    ]
  ]
]

send_frame-sent :
    (frame : Bytes) (ps : List Poll)
    → send_frame frame (length frame) ps ≡ (length frame, ([], none))
unfolding send_frame
send_frame-sent frame [] = ground arith
send_frame-sent frame (ready_ok n ∷ ps) = ground arith
send_frame-sent frame (ready_err ∷ ps) = ground arith
send_frame-sent frame (pending ∷ ps) = ground arith

send_frame-whole :
    (frame : Bytes) (ps : List Poll)
    → frame ≢ []
    → send_frame frame 0 (ready_ok (length frame) ∷ ps) ≡ (length frame, (frame ∷ [], none))
unfolding send_frame
send_frame-whole [] ps full = absurd (full refl)
send_frame-whole (b ∷ frame) ps full =
    let size : 0 + length (b ∷ frame) ≡ length (b ∷ frame) = omega arith in
    let some_left : ltb 0 (length (b ∷ frame)) ≡ true = ground arith in
    rw (some_left, size, send_frame-sent (b ∷ frame) ps) refl

-- A write that the socket takes at once sends one datagram, which decodes to the program's number and
-- exactly the bytes written, and leaves the forwarder ready for the next write.
pub poll_write-sends :
    (bare : Bare) (f : WasiStdioSimpleForwarder) (to : SocketAddr) (buf frame : Bytes)
    (ps : List Poll)
    → f.reply_to ≡ some to
    → f.has_socket ≡ true
    → f.current_encoded_msg ≡ none
    → bare.to_vec (basic_insecure_program_stdout f.our_pid buf) ≡ some frame
    → frame ≢ []
    → ((poll_write bare f buf (ready_ok (length frame) ∷ ps)).1
        ≡ (frame ∷ [], ready_ok (length buf)))
      × ((poll_write bare f buf (ready_ok (length frame) ∷ ps)).0.current_encoded_msg ≡ none)
      × (bare.from_slice frame ≡ some (basic_insecure_program_stdout f.our_pid buf))
unfolding poll_write send_frame
poll_write-sends bare f to buf frame ps dest sock idle enc full =
    ground (arith, send_frame-whole frame ps full, bare.round_trip _ frame enc)

poll_write-waits :
    (bare : Bare) (f : WasiStdioSimpleForwarder) (to : SocketAddr) (buf : Bytes) (ps : List Poll)
    → f.reply_to ≡ some to
    → f.has_socket ≡ true
    → (poll_write bare f buf ps).1.1 ≡ pending
    → ((poll_write bare f buf ps).0.reply_to ≡ some to)
      × ((poll_write bare f buf ps).0.has_socket ≡ true)
      × ((poll_write bare f buf ps).0.current_encoded_msg ≢ none)
unfolding poll_write
poll_write-waits bare f to buf ps dest sock wait = ground arith

poll_write-busy :
    (bare : Bare) (f : WasiStdioSimpleForwarder) (to : SocketAddr) (buf frame : Bytes)
    (ps : List Poll)
    → f.reply_to ≡ some to
    → f.has_socket ≡ true
    → f.current_encoded_msg ≡ some frame
    → (poll_write bare f buf ps).1 ≡ ([], ready_ok (length buf))
unfolding poll_write
poll_write-busy bare f to buf frame ps dest sock busy = ground arith

-- A write that finds the socket busy is lost: the same write is polled again, and it answers that
-- every byte was written while no datagram went to the socket, whatever that would answer.
pub poll_write-pending :
    (bare : Bare) (f : WasiStdioSimpleForwarder) (to : SocketAddr) (buf : Bytes)
    (before later : List Poll)
    → f.reply_to ≡ some to
    → f.has_socket ≡ true
    → (poll_write bare f buf before).1.1 ≡ pending
    → (poll_write bare (poll_write bare f buf before).0 buf later).1 ≡ ([], ready_ok (length buf))
unfolding poll_write
poll_write-pending bare f to buf before later dest sock wait =
    let (dest', sock', busy) = poll_write-waits bare f to buf before dest sock wait in
    elim (Option-cases (poll_write bare f buf before).0.current_encoded_msg) [
      | inl idle ↦ absurd (busy idle)
      | inr (frame, e) ↦ poll_write-busy bare _ to buf frame later dest' sock' e
    ]
