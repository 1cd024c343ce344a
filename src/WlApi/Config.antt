-- ===== src/WlApi/Config.antt =====
-- config.go: the defaults and checks of `LoadConfig`, after the TOML is decoded. The maps of the
-- decoded file are lists, in the order in which Go happens to range over them.
pub mod Load
use Prim.Native.String
use spiffecli.Prelude.{
  ℕ, ◌*◌, Bool, true, false, not, Option, none, some, List, [], ◌∷◌, Result, ok, err, ◌>>=◌, ◌>>◌,
  guard, map_err, traverse, String, ◌=ₛ◌, ◌++ₛ◌, if◌then◌else◌,
}
use spiffecli.Prelude.Int.{ℤ, pos, eqb_ℤ}
use spiffecli.Cert.{SpiffeId}
use spiffecli.X509Authority.{second}

abbrev pub minutes : ℕ → ℤ
minutes n = pos (n * 60 * second)

abbrev pub default_x509_authority_ttl : ℤ
default_x509_authority_ttl = minutes 1440

abbrev pub default_jwt_authority_ttl : ℤ
default_jwt_authority_ttl = minutes 1440

abbrev pub default_workload_x509_svid_ttl : ℤ
default_workload_x509_svid_ttl = minutes 60

abbrev pub default_workload_x509_svid_rotate_at : ℤ
default_workload_x509_svid_rotate_at = minutes 10

abbrev pub default_workload_jwt_svid_ttl : ℤ
default_workload_jwt_svid_ttl = minutes 60

pub record WorkloadConfig : Type 0 where
  pub id : SpiffeId
  pub socket_path : String
  pub x509_svid_ttl : ℤ
  pub x509_svid_rotate_at : ℤ
  pub jwt_svid_ttl : ℤ

pub record TrustDomainConfig : Type 0 where
  pub name : String
  pub x509_authority_ttl : ℤ
  pub jwt_authority_ttl : ℤ
  pub workloads : List WorkloadConfig

pub record Config : Type 0 where
  pub trust_domains : List TrustDomainConfig
  pub federation_port : ℤ

pub record WorkloadToml : Type 0 where
  pub id_path : String
  pub socket_path : String
  pub x509_svid_ttl : ℤ
  pub x509_svid_rotate_at : ℤ
  pub jwt_svid_ttl : ℤ

pub record TrustDomainToml : Type 0 where
  pub x509_authority_ttl : ℤ
  pub jwt_authority_ttl : ℤ
  pub workloads : List (String × WorkloadToml)

pub record ConfigToml : Type 0 where
  pub trust_domains : List (String × TrustDomainToml)
  pub federation_port : ℤ

pub data ConfigError : Type 0 where
  reading decoding : String → ConfigError
  invalid_workload_name invalid_id_path invalid_workload_id : String → String → String → ConfigError

-- `os.ReadFile` with the strict TOML decoder, `ValidatePathSegment`, `ValidatePath` and `FromPath` of
-- spiffeid, and `filepath.Join(os.TempDir(), "spirl-dev", …)`.
pub record ConfigLib : Type 0 where
  pub read_file : String → Result String String
  pub decode : String → Result String ConfigToml
  pub validate_path_segment : String → Result String (Unit {0})
  pub validate_path : String → Result String (Unit {0})
  pub from_path : String → String → Result String SpiffeId
  pub temp_socket : String → String → String

-- A duration of zero means the default.
unfoldable pub or_default : ℤ → ℤ → ℤ
or_default d default = if eqb_ℤ d (pos 0) then default else d

abbrev pub or_text : String → String → String
or_text s default = if s =ₛ "" then default else s

module _ (lib : ConfigLib) where
  unfoldable pub load_workload : String → String × WorkloadToml → Result ConfigError WorkloadConfig
  unfolding or_default
  load_workload td (name, wl) = do
    let id_path = or_text wl.id_path ("/" ++ₛ name)
    _ ← map_err (invalid_workload_name td name) (lib.validate_path_segment name)
    _ ← map_err (invalid_id_path td id_path) (lib.validate_path id_path)
    id ← map_err (invalid_workload_id td name) (lib.from_path td id_path)
    ok (record {
      id = id;
      socket_path = or_text wl.socket_path (lib.temp_socket td (name ++ₛ ".sock"));
      x509_svid_ttl = or_default wl.x509_svid_ttl default_workload_x509_svid_ttl;
      x509_svid_rotate_at = or_default wl.x509_svid_rotate_at default_workload_x509_svid_rotate_at;
      jwt_svid_ttl = or_default wl.jwt_svid_ttl default_workload_jwt_svid_ttl;
    })

  unfoldable pub load_trust_domain : String × TrustDomainToml → Result ConfigError TrustDomainConfig
  unfolding or_default
  load_trust_domain (name, td) = do
    workloads ← traverse (load_workload name) td.workloads
    ok (record {
      name = name;
      x509_authority_ttl = or_default td.x509_authority_ttl default_x509_authority_ttl;
      jwt_authority_ttl = or_default td.jwt_authority_ttl default_jwt_authority_ttl;
      workloads = workloads;
    })

  unfoldable pub load_config : String → Result ConfigError Config
  load_config path = do
    bytes ← map_err reading (lib.read_file path)
    toml ← map_err decoding (lib.decode bytes)
    trust_domains ← traverse load_trust_domain toml.trust_domains
    ok (record { trust_domains = trust_domains; federation_port = toml.federation_port })
