-- ===== src/Netmap/SurveyTests.antt =====
-- A survey from a node with one pinned peer, and the list of keys when our own daemon answers.
use weverywhere.Prelude.{◌≡◌, refl, true, false, [], ◌∷◌, none, some, All, bytes_eq}
use weverywhere.Prelude.Utf8.{codes}
use weverywhere.Prelude.Ip.{v4}
use weverywhere.Foreign.BareToy.{toy_bare}
use weverywhere.Config.Identity.{IdentityData}
use weverywhere.Config.Peer.{PeerMetadata, expected_key_str}
use weverywhere.Netmap.Keys.{KeyLine, row_line}
use weverywhere.Netmap.Discover.{Survey, peer_trusted, discover}
use weverywhere.Netmap.Budgets.{IsGranted, discover-IsGranted}

abbrev you : KeyLine
you = record { pubkey = 9 ∷ []; hostname = 121 ∷ []; is_you = true }

width_padded :
    row_line 3 (record { tree = 97 ∷ []; trust_mark = 120 ∷ []; warn = [] }) ≡ codes "a     [x]"
unfolding row_line
width_padded = refl

abbrev me : IdentityData
me = record {
  human_name = 97 ∷ [];
  generated_at_utc0_epoch_s = 1;
  validity_s = 2;
  encoded_public_key_fmt = [];
  encoded_public_key = 3 ∷ [];
  signature = 4 ∷ [];
}

abbrev pinned_peer : PeerMetadata
pinned_peer = record {
  hostname = some (112 ∷ []);
  ipv6 = none;
  ipv4 = none;
  expected_key = some (5 ∷ []);
}

-- The texts of keys are the keys.
abbrev survey : Survey
survey = record {
  wasm = 0 ∷ [];
  name = [];
  source = me;
  our_pubkey = [];
  trusted_keys = (5 ∷ []) ∷ [];
  peers = pinned_peer ∷ [];
  request_uuid = 6 ∷ [];
  interfaces = [];
  has_v6 = false;
  lookup_host = λ host port. some (record { ip = v4 1; port = port } ∷ []);
  parse_key = λ t. some t;
}

pinned_is_trusted : peer_trusted survey pinned_peer ≡ true
unfolding peer_trusted expected_key_str bytes_eq
pinned_is_trusted = refl

discover-IsGranted_example :
    All (IsGranted survey toy_bare 2240) (discover survey toy_bare false [] 2240)
discover-IsGranted_example = discover-IsGranted survey toy_bare 2240 false []
