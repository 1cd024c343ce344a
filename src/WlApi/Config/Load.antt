-- ===== src/WlApi/Config/Load.antt =====
-- The configuration that `LoadConfig` returns.
use spiffecli.Prelude.{
  ◌≡◌, ◌≢◌, ◌⊎◌, refl, subst, List, [], ◌∷◌, Result, ok, >>=-eq-ok, map_err, map_err-eq-ok,
  traverse, String, ◌++ₛ◌, arith,
}
use spiffecli.Prelude.Int.{ℤ, pos, eq_of_parts}
use spiffecli.WlApi.Config.{
  WorkloadConfig, TrustDomainConfig, Config, WorkloadToml, TrustDomainToml, ConfigToml, ConfigError,
  reading, decoding, invalid_workload_name, invalid_id_path, invalid_workload_id, ConfigLib,
  or_default, or_text, load_workload, load_trust_domain, load_config, default_x509_authority_ttl,
  default_jwt_authority_ttl, default_workload_x509_svid_ttl, default_workload_x509_svid_rotate_at,
  default_workload_jwt_svid_ttl,
}

-- The entries of two lists belong together one by one.
pub data Pairwise {A B : Type 0} (R : A → B → Type 0) : List A → List B → Type 0 where
  none_left : Pairwise R [] []
  paired :
      (a : A) (b : B) (as' : List A) (bs : List B)
      → R a b
      → Pairwise R as' bs
      → Pairwise R (a ∷ as') (b ∷ bs)

traverse-Pairwise :
    {A B E : Type 0} (R : A → B → Type 0) (f : A → Result E B)
    → ((a : A) (b : B) → f a ≡ ok b → R a b)
    → (xs : List A) (ys : List B) → traverse f xs ≡ ok ys
    → Pairwise R xs ys
traverse-Pairwise {E = E} R f sound [] ys h =
    let made : ◌≡◌ {A = Result E (List _)} (ok []) (ok ys) = h in
    let same : [] ≡ ys = ground (arith, made) in subst (Pairwise R []) same none_left
traverse-Pairwise {E = E} R f sound (x ∷ xs) ys h =
    let (y, hy, h1) = >>=-eq-ok (f x) _ h in
    let (zs, hz, h2) = >>=-eq-ok (traverse f xs) _ h1 in
    let made : ◌≡◌ {A = Result E (List _)} (ok (y ∷ zs)) (ok ys) = h2 in
    let same : y ∷ zs ≡ ys = ground (arith, made) in
    subst (Pairwise R (x ∷ xs)) same
      (paired x y xs zs (sound x y hy) (traverse-Pairwise R f sound xs zs hz))

-- A setting of zero is replaced by the default, any other is kept.
abbrev pub IsSetting : (given default result : ℤ) → Type 0
IsSetting given default result =
    ((given ≡ pos 0) × (result ≡ default)) ⊎ ((given ≢ pos 0) × (result ≡ given))

or_default-IsSetting : (given default : ℤ) → IsSetting given default (or_default given default)
unfolding or_default
or_default-IsSetting given default = ground (arith, eq_of_parts given (pos 0))

pub record IsWorkload (lib : ConfigLib) (td : String) (entry : String × WorkloadToml)
    (w : WorkloadConfig) : Type 0 where
  pub valid_name : lib.validate_path_segment entry.0 ≡ ok tt
  pub valid_path : lib.validate_path (or_text entry.1.id_path ("/" ++ₛ entry.0)) ≡ ok tt
  pub id : lib.from_path td (or_text entry.1.id_path ("/" ++ₛ entry.0)) ≡ ok w.id
  pub x509_svid_ttl : IsSetting entry.1.x509_svid_ttl default_workload_x509_svid_ttl w.x509_svid_ttl
  pub x509_svid_rotate_at :
      IsSetting entry.1.x509_svid_rotate_at default_workload_x509_svid_rotate_at
        w.x509_svid_rotate_at
  pub jwt_svid_ttl : IsSetting entry.1.jwt_svid_ttl default_workload_jwt_svid_ttl w.jwt_svid_ttl

pub record IsTrustDomain (lib : ConfigLib) (entry : String × TrustDomainToml)
    (td : TrustDomainConfig) : Type 0 where
  pub name : td.name ≡ entry.0
  pub x509_authority_ttl :
      IsSetting entry.1.x509_authority_ttl default_x509_authority_ttl td.x509_authority_ttl
  pub jwt_authority_ttl :
      IsSetting entry.1.jwt_authority_ttl default_jwt_authority_ttl td.jwt_authority_ttl
  pub workloads : Pairwise (IsWorkload lib entry.0) entry.1.workloads td.workloads

pub record IsLoaded (lib : ConfigLib) (path : String) (config : Config) : Type 0 where
  pub text : String
  pub toml : ConfigToml
  pub read : lib.read_file path ≡ ok text
  pub decoded : lib.decode text ≡ ok toml
  pub port : config.federation_port ≡ toml.federation_port
  pub trust_domains : Pairwise (IsTrustDomain lib) toml.trust_domains config.trust_domains

module _ (lib : ConfigLib) where
  load_workload-IsWorkload :
      (td : String) (entry : String × WorkloadToml) (w : WorkloadConfig)
      → load_workload lib td entry ≡ ok w
      → IsWorkload lib td entry w
  unfolding load_workload
  load_workload-IsWorkload td (name, wl) w h =
      let path = or_text wl.id_path ("/" ++ₛ name) in
      let (u, named, h1) =
        >>=-eq-ok (map_err (invalid_workload_name td name) (lib.validate_path_segment name)) _ h in
      let (u', valid, h2) =
        >>=-eq-ok (map_err (invalid_id_path td path) (lib.validate_path path)) _ h1 in
      let (id, made, h3) =
        >>=-eq-ok (map_err (invalid_workload_id td name) (lib.from_path td path)) _ h2 in
      let built : ◌≡◌ {A = Result ConfigError WorkloadConfig}
          (ok (record {
            id = id;
            socket_path = or_text wl.socket_path (lib.temp_socket td (name ++ₛ ".sock"));
            x509_svid_ttl = or_default wl.x509_svid_ttl default_workload_x509_svid_ttl;
            x509_svid_rotate_at =
                or_default wl.x509_svid_rotate_at default_workload_x509_svid_rotate_at;
            jwt_svid_ttl = or_default wl.jwt_svid_ttl default_workload_jwt_svid_ttl;
          }))
          (ok w) =
        h3 in
      let same : record {
        id = id;
        socket_path = or_text wl.socket_path (lib.temp_socket td (name ++ₛ ".sock"));
        x509_svid_ttl = or_default wl.x509_svid_ttl default_workload_x509_svid_ttl;
        x509_svid_rotate_at =
            or_default wl.x509_svid_rotate_at default_workload_x509_svid_rotate_at;
        jwt_svid_ttl = or_default wl.jwt_svid_ttl default_workload_jwt_svid_ttl;
      }
          ≡ w =
        ground (arith, built) in
      subst (IsWorkload lib td (name, wl)) same (record {
        valid_name =
            map_err-eq-ok (invalid_workload_name td name) (lib.validate_path_segment name) tt named;
        valid_path = map_err-eq-ok (invalid_id_path td path) (lib.validate_path path) tt valid;
        id = map_err-eq-ok (invalid_workload_id td name) (lib.from_path td path) id made;
        x509_svid_ttl = or_default-IsSetting wl.x509_svid_ttl default_workload_x509_svid_ttl;
        x509_svid_rotate_at =
            or_default-IsSetting wl.x509_svid_rotate_at default_workload_x509_svid_rotate_at;
        jwt_svid_ttl = or_default-IsSetting wl.jwt_svid_ttl default_workload_jwt_svid_ttl;
      })

  load_trust_domain-IsTrustDomain :
      (entry : String × TrustDomainToml) (td : TrustDomainConfig)
      → load_trust_domain lib entry ≡ ok td
      → IsTrustDomain lib entry td
  unfolding load_trust_domain
  load_trust_domain-IsTrustDomain (name, toml) td h =
      let (ws, loaded, h1) = >>=-eq-ok (traverse (load_workload lib name) toml.workloads) _ h in
      let built : TrustDomainConfig = record {
        name = name;
        x509_authority_ttl = or_default toml.x509_authority_ttl default_x509_authority_ttl;
        jwt_authority_ttl = or_default toml.jwt_authority_ttl default_jwt_authority_ttl;
        workloads = ws;
      } in
      let made : ◌≡◌ {A = Result ConfigError TrustDomainConfig} (ok built) (ok td) = h1 in
      let same : built ≡ td = ground (arith, made) in
      subst (IsTrustDomain lib (name, toml)) same (record {
        name = refl;
        x509_authority_ttl =
            or_default-IsSetting toml.x509_authority_ttl default_x509_authority_ttl;
        jwt_authority_ttl = or_default-IsSetting toml.jwt_authority_ttl default_jwt_authority_ttl;
        workloads =
            traverse-Pairwise (IsWorkload lib name) (load_workload lib name)
              (load_workload-IsWorkload name) toml.workloads ws loaded;
      })

  -- A configuration that `LoadConfig` returns has the decoded file's port, and a trust domain for each
  -- of the file and in each a workload for each of the file, in the same order: every workload's
  -- name and path passed the checks, its ID is that of the path in its trust domain, and each TTL is
  -- the file's or, where that is zero, the default.
  pub load_config-IsLoaded :
      (path : String) (config : Config)
      → load_config lib path ≡ ok config
      → IsLoaded lib path config
  unfolding load_config
  load_config-IsLoaded path config h =
      let (text, read, h1) = >>=-eq-ok (map_err reading (lib.read_file path)) _ h in
      let (toml, decoded, h2) = >>=-eq-ok (map_err decoding (lib.decode text)) _ h1 in
      let (tds, loaded, h3) =
        >>=-eq-ok (traverse (load_trust_domain lib) toml.trust_domains) _ h2 in
      let built : Config = record { trust_domains = tds; federation_port = toml.federation_port } in
      let made : ◌≡◌ {A = Result ConfigError Config} (ok built) (ok config) = h3 in
      let same : built ≡ config = ground (arith, made) in
      subst (IsLoaded lib path) same (record {
        text = text;
        toml = toml;
        read = map_err-eq-ok reading (lib.read_file path) text read;
        decoded = map_err-eq-ok decoding (lib.decode text) toml decoded;
        port = refl;
        trust_domains =
            traverse-Pairwise (IsTrustDomain lib) (load_trust_domain lib)
              load_trust_domain-IsTrustDomain toml.trust_domains tds loaded;
      })
