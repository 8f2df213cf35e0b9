-- ===== src/Serve/Listen.antt =====
-- `serve` and the loop of `serve_group` in src/command/serve.rs.
use weverywhere.Prelude.{
  ℕ, Bool, true, false, List, [], ◌∷◌, ◌++◌, Option, none, some, Bytes, if◌then◌else◌, take,
}
use weverywhere.Prelude.Ip.{IpAddr, SocketAddr}
use weverywhere.Foreign.Crypto.{Crypto}
use weverywhere.KeyFiles.{KeyCrates}
use weverywhere.NetUtils.{Interface}
use weverywhere.Messages.{Bare}
use weverywhere.Daemon.{Platform}
use weverywhere.Firewall.{Tool, Opening, ensure_inbound_udp_allowed}
use weverywhere.Executor.State.{Executor}
use weverywhere.Executor.Start.{Boot, new_executor}
use weverywhere.Serve.{World, SigEvent, ForwardTask, Handled, handle_datagram}
use weverywhere.Serve.Group.{Host, Membership, spawn_listeners}

-- A datagram that arrives, with the world in which it is handled.
pub record Arrival : Type 0 where
  pub world : World
  pub addr : SocketAddr
  pub bytes : Bytes

-- What the loop has done: the executor, what it logged, gave to the socket and spawned, and whether
-- it has ended.
pub record Listened : Type 0 where
  pub executor : Executor
  pub logged : List SigEvent
  pub sent : List (Bytes × SocketAddr)
  pub forwards : List ForwardTask
  pub ended : Bool

abbrev waits : Executor → Bool → Listened
waits x ended = record { executor = x; logged = []; sent = []; forwards = []; ended = ended }

abbrev tasks : Option ForwardTask → List ForwardTask
tasks none = []
tasks (some t) = t ∷ []

abbrev pub after : Handled → Listened → Listened
after h later = record {
  executor = later.executor;
  logged = h.logged ++ later.logged;
  sent = h.sent ++ later.sent;
  forwards = tasks h.forward ++ later.forwards;
  ended = later.ended;
}

module _ (crypto : Crypto) (bare : Bare) (port : ℕ) where
  -- One turn: the buffer holds 64 KiB, and what is over is cut off.
  abbrev pub turn : Executor → Arrival → Handled
  turn x a = handle_datagram crypto bare a.world port x a.addr (take 65536 a.bytes)

  -- The loop over what `recv_from` brings, `none` being its error.
  unfoldable pub listen : Executor → List (Option Arrival) → Listened
  listen x [] = waits x false
  listen x (none ∷ rest) = waits x true
  listen x (some a ∷ rest) =
      let h = turn x a in
      let later = listen h.executor rest in
      if h.goes_on then after h later else after h (waits h.executor true)

-- What `serve` has started: `none` for a group is a listener that failed.
pub record Served : Type 0 where
  pub opening : Opening
  pub executor : Executor
  pub listeners : List (Option (List Membership))

-- `serve`, up to where it waits for the listeners: `none` is a configuration that cannot be read.
unfoldable pub serve :
    Crypto
    → KeyCrates
    → (Tool → Option Bool)
    → Platform
    → Host
    → List Interface
    → Option Boot
    → List IpAddr
    → ℕ
    → Option Served
serve crypto crates status platform host interfaces none groups port = none
serve crypto crates status platform host interfaces (some boot) groups port = some (record {
  opening = ensure_inbound_udp_allowed status platform port;
  executor = new_executor crypto crates boot;
  listeners = spawn_listeners host interfaces groups;
})
