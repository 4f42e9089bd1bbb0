-- ===== src/Config.antt =====
-- src/config.rs: the arguments of the command line, the environment and the storage path. The lookup
-- of an environment variable and the parsing of socket addresses are parameters.
pub mod Arguments
pub mod Paths
use my_s.Models.{EtagType, md5, parse_etag_type}
use my_s.Server.Ranges.{split_once}
use my_s.Common.{
  Bool, List, Option, Text, [], codes, false, if◌then◌else◌, is_empty, length, none, not, or_else,
  some, split, strip_prefix, text_beq, trim, true, ℕ, suc, zero, ◌++◌, ◌||◌, ◌∷◌,
}

pub record CliOverrides : Type 0 where
  pub bind_addr : Option Text
  pub grpc_bind_addr : Option Text
  pub storage_root : Option Text

abbrev pub no_overrides : CliOverrides
no_overrides = record { bind_addr = none; grpc_bind_addr = none; storage_root = none }

abbrev set_bind : Text → CliOverrides → CliOverrides
set_bind v out = record out { bind_addr = some v }

abbrev set_storage : Text → CliOverrides → CliOverrides
set_storage v out = record out { storage_root = some v }

abbrev set_grpc_bind : Text → CliOverrides → CliOverrides
set_grpc_bind v out = record out { grpc_bind_addr = some v }

-- An option's value is the next argument; without one the option is passed over.
abbrev with_value :
    (Text → CliOverrides → CliOverrides) → List Text → CliOverrides → CliOverrides × List Text
with_value set [] out = (out, [])
with_value set (v ∷ rest) out = (set v out, rest)

-- The forms `--name=value`
abbrev with_equals : Text → CliOverrides → CliOverrides
with_equals arg out = elim (strip_prefix (codes "--bind=") arg) [
  | some v ↦ set_bind v out
  | none ↦ elim (strip_prefix (codes "--storage=") arg) [
    | some v ↦ set_storage v out
    | none ↦ elim (strip_prefix (codes "--storage-root=") arg) [
      | some v ↦ set_storage v out
      | none ↦ elim (strip_prefix (codes "--grpc-bind=") arg) [
        | some v ↦ set_grpc_bind v out
        | none ↦ out
      ]
    ]
  ]
]

-- One turn of the loop: the argument at `i`, and those after it; what is left are those at the next `i`.
abbrev pub read_argument : Text → List Text → CliOverrides → CliOverrides × List Text
read_argument arg rest out =
    if text_beq arg (codes "serve")
    then (out, rest)
    else if text_beq arg (codes "--bind") || text_beq arg (codes "-b")
    then with_value set_bind rest out
    else if text_beq arg (codes "--storage") || text_beq arg (codes "--storage-root")
    then with_value set_storage rest out
    else if text_beq arg (codes "--grpc-bind")
    then with_value set_grpc_bind rest out
    else (with_equals arg out, rest)

-- The loop on fuel, none where the fuel runs out.
unfoldable pub read_arguments : ℕ → List Text → CliOverrides → Option CliOverrides
read_arguments n [] out = some out
read_arguments zero (arg ∷ rest) out = none
read_arguments (suc n) (arg ∷ rest) out =
    let (out', rest') = read_argument arg rest out in read_arguments n rest' out'

unfoldable pub parse_cli_overrides : List Text → Option CliOverrides
parse_cli_overrides args = read_arguments (length args) args no_overrides

pub record PeerSeed : Type 0 where
  pub id : Text
  pub endpoint : Text

abbrev seed_onto : Option (Text × Text) → List PeerSeed → List PeerSeed
seed_onto none seeds = seeds
seed_onto (some (id, endpoint)) seeds = record { id = trim id; endpoint = trim endpoint } ∷ seeds

unfoldable pub peer_seeds : List Text → List PeerSeed
peer_seeds [] = []
peer_seeds (entry ∷ entries) =
    let seeds = peer_seeds entries in
    if is_empty (trim entry) then seeds else seed_onto (split_once 0x3d (trim entry)) seeds

unfoldable pub parse_cluster_peers : Text → List PeerSeed
parse_cluster_peers raw = peer_seeds (split 0x2c raw)

pub record Config {ℓ} (Addr : Type ℓ) : Type ℓ where
  pub storage_root : Text
  pub bind_addr : Addr
  pub grpc_bind_addr : Addr
  pub embed_wg : Bool
  pub node_id : Text
  pub aws_access_key_id : Text
  pub aws_secret_access_key : Text
  pub default_etag_type : EtagType
  pub cluster_peers : List PeerSeed
  pub wg_private_key : Option Text
  pub disable_tui : Bool

abbrev pub value_or {ℓ} : {A : Type ℓ} → A → Option A → A
value_or d none = d
value_or d (some a) = a

-- `Ok("1") | Ok("true") | Ok("TRUE") | Ok("yes") | Ok("YES")`
abbrev pub is_yes : Option Text → Bool
is_yes none = false
is_yes (some t) =
    text_beq t (codes "1")
    || text_beq t (codes "true")
    || text_beq t (codes "TRUE")
    || text_beq t (codes "yes")
    || text_beq t (codes "YES")

abbrev pub etag_type_or : EtagType → Option Text → EtagType
etag_type_or default none = default
etag_type_or default (some s) = value_or default (parse_etag_type s)

-- The text of `.mys3/storage_root`, none if it cannot be read
unfoldable pub read_persisted_storage_root : Option Text → Option Text
read_persisted_storage_root none = none
read_persisted_storage_root (some raw) = if is_empty (trim raw) then none else some (trim raw)

abbrev pub storage_root_of : Option Text → Option Text → Option Text → Text
storage_root_of cli_root env_root persisted =
    value_or (codes ".data")
      (or_else (or_else cli_root env_root) (read_persisted_storage_root persisted))

module _ {Addr : Type 0} (parse_addr : Text → Option Addr) (is_loopback : Addr → Bool)
    (ip : Addr → Text) (env : Text → Option Text) where
  abbrev default_grpc_addr : Addr → Text
  default_grpc_addr bind_addr =
      if is_loopback bind_addr then ip bind_addr ++ codes ":50051" else codes "10.0.0.1:50051"

  abbrev config_of : CliOverrides → Option Text → Bool → Addr → Option Addr → Option (Config Addr)
  config_of cli persisted is_terminal bind_addr none = none
  config_of cli persisted is_terminal bind_addr (some grpc_bind_addr) = some (record {
    storage_root = storage_root_of cli.storage_root (env (codes "STORAGE_ROOT")) persisted;
    bind_addr = bind_addr;
    grpc_bind_addr = grpc_bind_addr;
    embed_wg = is_yes (env (codes "EMBED_WG"));
    node_id = value_or (codes "node-local-1") (env (codes "NODE_ID"));
    aws_access_key_id = value_or (codes "minioadmin") (env (codes "AWS_ACCESS_KEY_ID"));
    aws_secret_access_key = value_or (codes "minioadmin") (env (codes "AWS_SECRET_ACCESS_KEY"));
    default_etag_type = etag_type_or md5 (env (codes "DEFAULT_ETAG_TYPE"));
    cluster_peers = parse_cluster_peers (value_or [] (env (codes "CLUSTER_PEERS")));
    wg_private_key = env (codes "WG_PRIVATE_KEY");
    disable_tui = is_yes (env (codes "DISABLE_TUI")) || not is_terminal;
  })

  abbrev bound_config : CliOverrides → Option Text → Bool → Option Addr → Option (Config Addr)
  bound_config cli persisted is_terminal none = none
  bound_config cli persisted is_terminal (some bind_addr) =
      config_of cli persisted is_terminal bind_addr (
        parse_addr (
          value_or (default_grpc_addr bind_addr)
            (or_else cli.grpc_bind_addr (env (codes "GRPC_BIND_ADDR")))))

  abbrev with_overrides : Option CliOverrides → Option Text → Bool → Option (Config Addr)
  with_overrides none persisted is_terminal = none
  with_overrides (some cli) persisted is_terminal = bound_config cli persisted is_terminal (
      parse_addr (
        value_or (codes "10.0.0.1:9000")
          (or_else cli.bind_addr (env (codes "WIREGUARD_BIND_ADDR")))))

  -- None where an address does not parse.
  unfoldable pub from_env : List Text → Option Text → Bool → Option (Config Addr)
  from_env args persisted is_terminal =
      with_overrides (parse_cli_overrides args) persisted is_terminal
