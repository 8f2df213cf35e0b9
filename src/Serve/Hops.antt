-- ===== src/Serve/Hops.antt =====
-- How far a discovery request travels: which nodes forward it, in src/command/serve.rs.
use weverywhere.Prelude.{ℕ, ◌≡◌, Bool, List, [], ◌∷◌, ◌++◌, some, Bytes, In}
use weverywhere.Prelude.Ip.{SocketAddr}
use weverywhere.Foreign.Crypto.{Crypto}
use weverywhere.Config.Peer.{PeerMetadata}
use weverywhere.Messages.{Bare}
use weverywhere.Discovery.{initial_depth_budget}
use weverywhere.Executor.Program.{ProgramData}
use weverywhere.Executor.State.{Executor}
use weverywhere.Serve.{World, ForwardTask, handle_execute_request}
use weverywhere.Serve.Forward.{Target, Resolver, we_trust, discovery_forward}

-- A request on its way: it is sent with the budget that `netmap` gives a target which it trusts or not,
-- and at each hop a node that handles it forwards it to a target, which that node trusts or not. The
-- nodes, their worlds, and what they know of peers may be others for every hop. The list is the trust of
-- the hops, the first one first.
pub data Travels (crypto : Crypto) (bare : Bare) (port : ℕ) (origin : Bool)
    : List Bool → ProgramData → Type 0 where
  sent_out :
      (p : ProgramData)
      → p.depth_budget ≡ initial_depth_budget origin
      → Travels crypto bare port origin [] p
  hop :
      (path : List Bool) (p q : ProgramData) (world : World) (x y : Executor) (addr : SocketAddr)
      (task : ForwardTask) (resolver : Resolver) (peers : List PeerMetadata) (fresh : Bytes)
      (target : Target)
      → Travels crypto bare port origin path p
      → (handle_execute_request crypto bare world port x addr p).forward ≡ some task
      → In (target, q) (discovery_forward resolver peers y fresh task.incoming task.forward_uuid)
      → Travels crypto bare port origin (path ++ we_trust y target.pubkey ∷ []) q
