-- ===== src/Executor/Tests.antt =====
-- Tests of the executor's parts, and their theorems at concrete programs.
use weverywhere.Prelude.{
  ℕ, replicate, Option, none, keep, ltb, length, take, min, ◌⊎◌, ◌<◌, ◌≤◌, refl, ◌≡◌, true, false,
  [], ◌∷◌, some, Bytes, All,
}
use weverywhere.Prelude.Ip.{SocketAddr, v4}
use weverywhere.Foreign.Cbor.{pos, ℤ}
use weverywhere.Foreign.CborToy.{toy_cbor, toy_to_vec}
use weverywhere.Foreign.Toy.{toy_crypto}
use weverywhere.Foreign.BareToy.{toy_bare, toy_bare_to_vec}
use weverywhere.Config.Identity.{generate}
use weverywhere.MessageStore.{
  MessageStore, StoredMessage, new, push, append, note_seen, trim_seen, read_after,
}
use weverywhere.Executor.Memory.{read_guest_bytes, write_guest_bytes}
use weverywhere.Executor.Store.{RpStoreData, Guest}
use weverywhere.Executor.Stdio.{
  WasiStdioSimpleForwarder, ready_ok, pending, new_udp, new_maybe_udp, poll_write, send_frame,
  poll_write-pending,
}
use weverywhere.Executor.Running.{Running, spawned, inserted, finished}
use weverywhere.Executor.HostMessages.{
  encode_messages_cbor, host_messages_push, host_messages_read, encode_prefix, encode_list,
  message_values, message_value,
}
use weverywhere.Executor.ReadLaws.{host_messages_read-LargestFit}
use weverywhere.Executor.HostLaws.{host_messages_push-stamps}

abbrev caller : SocketAddr
caller = record { ip = v4 0x7f000001; port = 9 }

abbrev before : Bytes
before = 10 ∷ 11 ∷ 12 ∷ 13 ∷ []

abbrev after : Bytes
after = 10 ∷ 1 ∷ 2 ∷ 13 ∷ []

abbrev forwarder : WasiStdioSimpleForwarder
forwarder = new_udp caller

poll_write-pending_example :
    (poll_write toy_bare
      (poll_write toy_bare forwarder (104 ∷ []) (pending ∷ [])).0
      (104 ∷ [])
      (ready_ok 3 ∷ [])).1
    ≡ ([], ready_ok 1)
unfolding new_udp new_maybe_udp toy_bare_to_vec poll_write send_frame
poll_write-pending_example =
    poll_write-pending toy_bare forwarder caller (104 ∷ []) (pending ∷ []) (ready_ok 3 ∷ []) refl
      refl refl

abbrev idle : Running
idle = record {
  next_pid = 4;
  tasks = λ j. false;
  starting = λ j. false;
  spawn_error = λ j. false;
  running_programs = λ j. false;
  pid_last_exit_code = λ j. none;
}

-- A program under pid 4 is inserted and then ends, and another is spawned before the caller looks.
abbrev ran : Running
ran = finished (inserted (spawned idle) 4) 4 1

abbrev greeting : StoredMessage
greeting = record {
  seq = 1;
  from_name = 97 ∷ [];
  from_pubkey = 5 ∷ [];
  text = 104 ∷ [];
  epoch_s = 7;
}

abbrev pub chat_data : RpStoreData
chat_data = record {
  program_is_trusted = some false;
  hostname = 104 ∷ [];
  peer_reports = [];
  signing_key = some (1 ∷ []);
  our_pubkey = [];
  caller_pubkey = 5 ∷ [];
  caller_name = 97 ∷ [];
  messages = some (new 2);
  trusted_pubkeys = [];
  replicate_tx = none;
  fabric_send_tx = some (record { is_open = true; sent = [] });
  identity_data = some (generate toy_crypto (1 ∷ []) (97 ∷ []) 5);
  depth = 0;
  tty = none;
  node_addr = none;
  arg_list = [];
  arg_map = [];
  return_slot = none;
}

abbrev pub chat : Guest
chat = record { memory = some (9 ∷ 104 ∷ 105 ∷ []); printed = []; store = chat_data }

-- A program whose node has stored two messages reads those after the first.
abbrev polling : Guest
polling = record {
  memory = some (replicate 80 0);
  printed = [];
  store = record chat_data {
    messages =
        some (record (new 4) { next_seq = 3; msgs = greeting ∷ record greeting { seq = 2 } ∷ [] });
  };
}

abbrev read_result : Option (Guest × ℤ)
read_result = host_messages_read toy_cbor polling (pos 1) (pos 0) (pos 60)

abbrev polling_after : Guest
polling_after = elim read_result [ none ↦ polling | some (g, r) ↦ g ]

abbrev bytes_read : ℤ
bytes_read = elim read_result [ none ↦ pos 0 | some (g, r) ↦ r ]

read_succeeds : read_result ≡ some (polling_after, bytes_read)
unfolding host_messages_read read_after new encode_messages_cbor encode_prefix encode_list
    message_values message_value toy_to_vec write_guest_bytes
read_succeeds = refl

host_messages_read-LargestFit_example :
    let fresh =
      keep (λ (m : StoredMessage). ltb 1 m.seq) (greeting ∷ record greeting { seq = 2 } ∷ []) in
    (n : ℕ) × (n ≤ length fresh)
    × (read_guest_bytes polling_after.memory (pos 0) bytes_read
        ≡ some (take 60 (encode_list toy_cbor (take n fresh))))
    × (bytes_read ≡ pos (min (length (encode_list toy_cbor (take n fresh))) 60))
    × ((n ≡ 0) ⊎ (length (encode_list toy_cbor (take n fresh)) ≤ 60))
    × ((m : ℕ) → n < m → m ≤ length fresh → 60 < length (encode_list toy_cbor (take m fresh)))
unfolding new
host_messages_read-LargestFit_example =
    host_messages_read-LargestFit toy_cbor polling polling_after (pos 0) (pos 60) bytes_read 1
      (record (new 4) { next_seq = 3; msgs = greeting ∷ record greeting { seq = 2 } ∷ [] }) refl
      read_succeeds

abbrev chat_after : Guest
chat_after = record chat {
  store = record chat_data {
    messages =
        some
          (push (new 2) (record {
            from_name = 97 ∷ [];
            from_pubkey = 5 ∷ [];
            id = 9 ∷ [];
            text = 104 ∷ 105 ∷ [];
            epoch_s = 7;
          })).0;
  };
}

chat-pushes : host_messages_push 7 chat (pos 0) (pos 1) (pos 1) (pos 2) ≡ some (chat_after, pos 1)
unfolding host_messages_push read_guest_bytes push append note_seen trim_seen new
chat-pushes = refl

-- Every message in the store is from the caller.
host_messages_push-stamps_example :
    (t : MessageStore) × (chat_after.store.messages ≡ some t)
    × All (λ m. m.from_pubkey ≡ 5 ∷ []) t.msgs
unfolding new
host_messages_push-stamps_example =
    host_messages_push-stamps (λ m. m.from_pubkey ≡ 5 ∷ []) 7 chat chat_after (pos 0) (pos 1)
      (pos 1) (pos 2) (pos 1) (new 2) refl chat-pushes tt (λ m name key time. key)
