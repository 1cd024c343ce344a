-- ===== src/Bundle/Client.antt =====
-- client.go of internal/bundle: a bundle of a trust domain, to a file or to the terminal.
use spiffecli.Prelude.{
  not, [], ◌∷◌, ◌++◌, Result, ok, ◌>>=◌, ◌>>◌, guard, map_err, String, ◌=ₛ◌, Bytes, if◌then◌else◌,
}

pub record BundleClient : Type 0 where
  pub workload_api_socket : String
  pub filename : String
  pub trust_domain : String

pub data ClientError : Type 0 where
  no_trust_domain : ClientError
  no_source bad_trust_domain no_bundle not_marshaled not_written : String → ClientError

-- What a command leaves: a text on the terminal, or a file.
pub data Written : Type 0 where
  printed : Bytes → Written
  wrote_file : String → Bytes → Written

-- The source of X.509 or JWT bundles at a socket, `TrustDomainFromString`, `Marshal` and
-- `os.WriteFile`.
pub record ClientLib (S B : Type 0) : Type 0 where
  pub new_source : String → Result String S
  pub trust_domain_from_string : String → Result String String
  pub get_bundle : S → String → Result String B
  pub marshal : B → Result String Bytes
  pub write_file : String → Bytes → Result String (Unit {0})

module _ {S B : Type 0} (lib : ClientLib S B) (c : BundleClient) where
  unfoldable pub write_or_print : Bytes → Result ClientError Written
  write_or_print bytes =
      let written = map_err not_written (lib.write_file c.filename bytes) in
      if c.filename =ₛ ""
      then ok (printed (bytes ++ 10 ∷ []))
      else written >> ok (wrote_file c.filename bytes)

  -- `outputBundle`
  unfoldable pub output_bundle : B → Result ClientError Written
  output_bundle bundle = do bytes ← map_err not_marshaled (lib.marshal bundle); write_or_print bytes

  -- `GetX509Bundle` and `GetJWTBundle`, which differ in the library's source
  unfoldable pub get_bundle : Result ClientError Written
  get_bundle = do
    guard (not (c.trust_domain =ₛ "")) no_trust_domain
    source ← map_err no_source (lib.new_source c.workload_api_socket)
    td ← map_err bad_trust_domain (lib.trust_domain_from_string c.trust_domain)
    bundle ← map_err no_bundle (lib.get_bundle source td)
    output_bundle bundle
