-- ===== src/Config/Merge.antt =====
-- The merging of configuration files in src/config.rs: `read_from_file` and the override files that
-- its includes name.
use weverywhere.Prelude.{List, [], ◌∷◌, ◌++◌, Option, none, some, Text, ℕ}
use weverywhere.Config.Peer.{PeerMetadata}

-- The optional forms that `optionable` derives: a field that a file leaves out is `none`.
pub record IdentityConfigOpt : Type 0 where
  pub name : Option Text
  pub keyfile : Option Text

pub record LimitOpt : Type 0 where
  pub max_cpu_instructions : Option ℕ
  pub max_memory_bytes : Option ℕ

pub record LimitsOpt : Type 0 where
  pub trusted : Option LimitOpt
  pub untrusted : Option LimitOpt

-- `[[trusted]]`, `[[startup_program]]` and `[[includes]]` entries are their one text; a peer is an
-- atomic leaf.
pub record ConfigOpt : Type 0 where
  pub identity : Option IdentityConfigOpt
  pub trusted : Option (List (Option Text))
  pub startup_program : Option (List (Option Text))
  pub includes : Option (List (Option Text))
  pub peer : Option (List PeerMetadata)
  pub limits : Option LimitsOpt

pub record IdentityConfig : Type 0 where
  pub name : Text
  pub keyfile : Text

pub record Limit : Type 0 where
  pub max_cpu_instructions : ℕ
  pub max_memory_bytes : ℕ

pub record Limits : Type 0 where
  pub trusted : Limit
  pub untrusted : Limit

pub record Config : Type 0 where
  pub identity : IdentityConfig
  pub trusted : List Text
  pub startup_program : List Text
  pub includes : List Text
  pub peer : List PeerMetadata
  pub limits : Limits

infixl 5 ◌>>=◌
abbrev pub ◌>>=◌ {ℓ κ} : {A : Type ℓ} {B : Type κ} → Option A → (A → Option B) → Option B
none >>= f = none
some a >>= f = f a

-- `fancy_omerge`, over the crate's merge of two values of one type; the outer `none` is the error.
unfoldable pub fancy_omerge {ℓ} :
    {T : Type ℓ} → (T → T → Option (Option T)) → Option T → Option T → Option (Option T)
fancy_omerge omerge (some v1) none = some (some v1)
fancy_omerge omerge (some v1) (some v2) = omerge v1 v2
fancy_omerge omerge none (some v2) = some (some v2)
fancy_omerge omerge none none = some none

unfoldable pub fancy_omerge_vec {ℓ} :
    {T : Type ℓ} → Option (List T) → Option (List T) → Option (List T)
fancy_omerge_vec (some v1) none = some v1
fancy_omerge_vec (some v1) (some v2) = some (v1 ++ v2)
fancy_omerge_vec none (some v2) = some v2
fancy_omerge_vec none none = none

abbrev pub limits_or_default : Option LimitsOpt → LimitsOpt
limits_or_default none = record { trusted = none; untrusted = none }
limits_or_default (some l) = l

abbrev pub limit_or_default : Option LimitOpt → LimitOpt
limit_or_default none = record { max_cpu_instructions = none; max_memory_bytes = none }
limit_or_default (some l) = l

-- `into_optioned` and `try_from_optioned`, as derived: every field of the result must be present.
unfoldable pub present : List Text → List (Option Text)
present [] = []
present (t ∷ ts) = some t ∷ present ts

abbrev pub limit_into : Limit → LimitOpt
limit_into l = record {
  max_cpu_instructions = some l.max_cpu_instructions;
  max_memory_bytes = some l.max_memory_bytes;
}

unfoldable pub into_optioned : Config → ConfigOpt
into_optioned c = record {
  identity = some (record { name = some c.identity.name; keyfile = some c.identity.keyfile });
  trusted = some (present c.trusted);
  startup_program = some (present c.startup_program);
  includes = some (present c.includes);
  peer = some c.peer;
  limits = some (record {
    trusted = some (limit_into c.limits.trusted);
    untrusted = some (limit_into c.limits.untrusted);
  });
}

unfoldable pub all_present : List (Option Text) → Option (List Text)
all_present [] = some []
all_present (none ∷ os) = none
all_present (some t ∷ os) = do ts ← all_present os; some (t ∷ ts)

unfoldable pub limit_from : LimitOpt → Option Limit
limit_from l = do
  cpu ← l.max_cpu_instructions
  memory ← l.max_memory_bytes
  some (record { max_cpu_instructions = cpu; max_memory_bytes = memory })

unfoldable pub identity_from : IdentityConfigOpt → Option IdentityConfig
identity_from i = do
  name ← i.name
  keyfile ← i.keyfile
  some (record { name = name; keyfile = keyfile })

unfoldable pub try_from_optioned : ConfigOpt → Option Config
try_from_optioned o = do
  identity_o ← o.identity
  identity ← identity_from identity_o
  trusted_o ← o.trusted
  trusted ← all_present trusted_o
  startup_o ← o.startup_program
  startup_program ← all_present startup_o
  includes_o ← o.includes
  includes ← all_present includes_o
  peer ← o.peer
  limits_o ← o.limits
  limit_trusted_o ← limits_o.trusted
  limit_trusted ← limit_from limit_trusted_o
  limit_untrusted_o ← limits_o.untrusted
  limit_untrusted ← limit_from limit_untrusted_o
  some (record {
    identity = identity;
    trusted = trusted;
    startup_program = startup_program;
    includes = includes;
    peer = peer;
    limits = record { trusted = limit_trusted; untrusted = limit_untrusted };
  })

-- The merge of the crate serde_merge, at the two types it is called at, the reading and parsing of
-- an override file, and the glob crate: `none` where they return an error.
pub record Files : Type 0 where
  pub omerge_identity : IdentityConfigOpt → IdentityConfigOpt → Option (Option IdentityConfigOpt)
  pub omerge_limit : LimitOpt → LimitOpt → Option (Option LimitOpt)
  pub read_override : Text → Option ConfigOpt
  pub glob : Text → Option (List (Option Text))

module _ (files : Files) where
  unfoldable pub merge_override : Config → ConfigOpt → Option Config
  merge_override config read =
      let override_data = record read { includes = none } in
      let config_o = into_optioned config in
      let ours = limits_or_default config_o.limits in
      let theirs = limits_or_default override_data.limits in
      do
        identity ← fancy_omerge files.omerge_identity config_o.identity override_data.identity
        trusted ← fancy_omerge files.omerge_limit ours.trusted theirs.trusted
        untrusted ← fancy_omerge files.omerge_limit ours.untrusted theirs.untrusted
        try_from_optioned (record {
          identity = identity;
          trusted = fancy_omerge_vec config_o.trusted override_data.trusted;
          startup_program = fancy_omerge_vec config_o.startup_program override_data.startup_program;
          includes = fancy_omerge_vec config_o.includes override_data.includes;
          peer = fancy_omerge_vec config_o.peer override_data.peer;
          limits = some (record {
            trusted = some (limit_or_default trusted);
            untrusted = some (limit_or_default untrusted);
          });
        })

  unfoldable pub process_config_override_file : Config → Text → Option Config
  process_config_override_file config path = do
    override_data ← files.read_override path
    merge_override config override_data

  abbrev pub ok_or {ℓ} : {A : Type ℓ} → A → Option A → A
  ok_or a none = a
  ok_or a (some b) = b

  -- One file that a glob yields; its errors are logged and the configuration is kept.
  unfoldable pub apply_entry : Config → Option Text → Config
  apply_entry config none = config
  apply_entry config (some path) = ok_or config (process_config_override_file config path)

  unfoldable pub apply_entries : Config → List (Option Text) → Config
  apply_entries config [] = config
  apply_entries config (e ∷ es) = apply_entries (apply_entry config e) es

  unfoldable pub apply_include : Config → Text → Config
  apply_include config path = elim (files.glob path) [
    | none ↦ config
    | some entries ↦ apply_entries config entries
  ]

  -- The loop runs over a clone of the includes of the file itself.
  unfoldable pub apply_includes : Config → List Text → Config
  apply_includes config [] = config
  apply_includes config (i ∷ is) = apply_includes (apply_include config i) is

  -- `read_from_file`, behind the reading and parsing of the file itself.
  unfoldable pub read_from_file : Config → Config
  read_from_file config = apply_includes config config.includes
