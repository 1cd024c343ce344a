-- ===== src/Tests/Clients.antt =====
-- Key sets, and the clients for tokens and certificates.
use spiffecli.Prelude.{
  ◌↔◌, ◌⊎◌, Result, ℕ, ◌≡◌, ◌≢◌, refl, true, false, List, [], ◌∷◌, ◌++◌, map, ok, err, String,
  Bytes, All, codes, split, ◌=ₛ◌, if◌then◌else◌,
}
use spiffecli.Bundle.{Url, file, http_url, PathLib, is_http, file_of, source_of, new_jwk_source}
use spiffecli.Bundle.Locations.{IsFileName, IsFileOf, new_jwk_source_correct}
use spiffecli.Bundle.Output.{Jwk, rsa_public, key_id_missing, convert_bundle_to_key_ids}
use spiffecli.Bundle.KeyIds.{IsNamed, IsLine, IsFirstUnnamed, convert_bundle_to_key_ids_correct}
use spiffecli.Bundle.Client.{printed}
use spiffecli.JwtSvid.Client.{
  JwtSvidClient, JwtClientLib, scanned, validate_options, get_token, get_bundle_source, first_line,
  verify_jwt_svid, create_params, output_svid, decode_json, fetch_with, request_jwt_svid,
}
use spiffecli.JwtSvid.Requests.{
  IsVerified, IsRequested, verify_jwt_svid-IsVerified, request_jwt_svid-IsRequested,
}
use spiffecli.Cmd.Commands.{
  Socket, get_jwt_svid, get_x509_svid, verify_x509_svid_command, verify_jwt_svid_command,
}
use spiffecli.Cmd.Sockets.{Dials, commands-IsLocal}
use spiffecli.Bundle.Client.{Written}
use spiffecli.X509Svid
use spiffecli.X509Svid.{
  X509ClientError, Store, request_x509_svid, verify_x509_svid, dot, X509SvidClient, X509ClientLib,
  private_key_filename, marshal_svid, write_files,
}
use spiffecli.X509Svid.Outputs.{IsBare, IsSaved, private_key_filename_correct, output_svid-IsSaved}
use spiffecli.Tests.Services.{verify_lib, no_files, file_url}

abbrev httpx : Url
httpx = record { scheme = "httpx"; path = "/keys"; text = "httpx://host/keys" }

abbrev paths : PathLib
paths = record {
  parse = λ s.
      if s =ₛ "keys.json"
      then ok (record { scheme = ""; path = "keys.json"; text = "keys.json" })
      else ok httpx;
  clean = λ s. s;
}

new_jwk_source_correct_example :
    ((u : Url)
      → (new_jwk_source paths "httpx://host/keys" ≡ ok (http_url u))
        ↔ ((paths.parse "httpx://host/keys" ≡ ok u) × (is_http u.scheme ≡ true)))
    × ((f : String)
        → (new_jwk_source paths "httpx://host/keys" ≡ ok (file f))
          ↔ (IsFileName f × IsFileOf paths "httpx://host/keys" f))
new_jwk_source_correct_example = new_jwk_source_correct paths "httpx://host/keys"

abbrev keys : List Jwk
keys =
    record { key = rsa_public 2048; key_id = codes "k1"; usage = "sig" }
    ∷ record { key = rsa_public 4096; key_id = []; usage = "" }
    ∷ []

convert_bundle_to_key_ids_correct_example :
    (All IsNamed keys
      → (out : Bytes) × (convert_bundle_to_key_ids keys ≡ ok out)
        × (All (λ k. IsLine k.key_id) keys → split 10 out ≡ map (λ k. k.key_id) keys ++ [] ∷ []))
    × ((i : ℕ) → IsFirstUnnamed keys i → convert_bundle_to_key_ids keys ≡ err (key_id_missing i))
convert_bundle_to_key_ids_correct_example = convert_bundle_to_key_ids_correct keys

-- A Workload API and SVIDs without content.
abbrev jwt_client_lib : JwtClientLib (Unit {0}) (Unit {0})
jwt_client_lib = record {
  paths = paths;
  new_jwt_source = λ socket token. ok tt;
  fetch_jwt_svid = λ w params. ok tt;
  parse_and_validate = λ token source audiences. ok tt;
  marshal = λ v. codes "token";
  marshal_json = λ v. ok (codes "{}");
  open_file = λ name. ok (scanned "token");
  write_file = λ name bytes. ok tt;
}

abbrev jwt_client : JwtSvidClient
jwt_client = record {
  decode = false;
  filename = "token.jwt";
  audiences = "db" ∷ "web" ∷ [];
  token = "";
  workload_api_socket = "unix:///s";
  bundle_source = "keys.json";
  trust_domain = "example.org";
}

verified : verify_jwt_svid jwt_client_lib jwt_client ≡ ok tt
unfolding verify_jwt_svid validate_options get_bundle_source get_token first_line new_jwk_source
    source_of file_of
verified = refl

verify_jwt_svid-IsVerified_example : IsVerified jwt_client_lib jwt_client
verify_jwt_svid-IsVerified_example =
    verify_jwt_svid-IsVerified jwt_client_lib jwt_client tt verified

abbrev printing : JwtSvidClient
printing = record jwt_client { decode = true }

requested : request_jwt_svid jwt_client_lib printing "" ≡ ok (printed (codes "{}\n"))
unfolding request_jwt_svid validate_options fetch_with create_params output_svid decode_json
requested = refl

request_jwt_svid-IsRequested_example :
    IsRequested jwt_client_lib printing "" (printed (codes "{}\n"))
request_jwt_svid-IsRequested_example =
    request_jwt_svid-IsRequested jwt_client_lib printing "" (printed (codes "{}\n")) requested

private_key_filename_correct_example :
    (IsBare (codes "./cert.pem")
      → private_key_filename (codes "./cert.pem") ≡ codes "./cert.pem" ++ codes "-key")
    × ((name ext : Bytes)
        → IsBare name
        → codes "./cert.pem" ≡ name ++ dot ∷ ext
        → private_key_filename (codes "./cert.pem") ≡ name ++ codes "-key." ++ ext)
    × (private_key_filename (codes "./cert.pem") ≢ codes "./cert.pem")
private_key_filename_correct_example = private_key_filename_correct (codes "./cert.pem")

abbrev x509_client_lib : X509ClientLib (Unit {0}) (Unit {0})
x509_client_lib = record {
  new_x509_source = λ socket token. ok tt;
  get_x509_svid = λ w. ok tt;
  marshal = λ v. ok (codes "CERT", codes "KEY");
  marshal_raw = λ v. ok (1 ∷ [], 2 ∷ []);
  verify = λ certs w. ok tt;
  files = no_files;
  verifying = verify_lib file_url;
  write_file = λ name. ok tt;
}

abbrev x509_client : X509SvidClient
x509_client = record {
  filename = "cert.pem";
  workload_api_socket = "unix:///s";
  format = "der";
  password = "";
}

svid_written : (X509Svid.output_svid x509_client_lib x509_client tt []).2 ≡ ok tt
unfolding X509Svid.output_svid marshal_svid write_files
svid_written = refl

output_svid-IsSaved_example :
    IsSaved x509_client_lib x509_client tt []
      (X509Svid.output_svid x509_client_lib x509_client tt []).0
      (X509Svid.output_svid x509_client_lib x509_client tt []).1
output_svid-IsSaved_example =
    output_svid-IsSaved x509_client_lib x509_client tt [] (λ e. cc) svid_written

-- A relative path as the flag, and an environment variable that is not used.
abbrev relative : Socket
relative = record { flag = codes "s.sock"; env = codes "unix:///other" }

abbrev in_tmp : Bytes → Result Bytes Bytes
in_tmp p = ok (codes "/tmp/" ++ p)

abbrev text_of : Bytes → String
text_of p = "unix:///tmp/s.sock"

commands-IsLocal_example :
    ((c : JwtSvidClient) (token : String) (out : Written)
      → get_jwt_svid in_tmp text_of jwt_client_lib relative c token ≡ ok out
      → Dials in_tmp text_of relative (λ t.
        request_jwt_svid jwt_client_lib (record c { workload_api_socket = t }) token ≡ ok out))
    × ((c : X509SvidClient) (token : String) (store : Store)
          (out : Bytes × Store × Result X509ClientError (Unit {0}))
        → get_x509_svid in_tmp text_of x509_client_lib relative c token store ≡ ok out
        → Dials in_tmp text_of relative (λ t.
          request_x509_svid x509_client_lib (record c { workload_api_socket = t }) token store
          ≡ out))
    × ((c : X509SvidClient)
        → verify_x509_svid_command in_tmp text_of x509_client_lib relative c ≡ ok tt
        → Dials in_tmp text_of relative
            (λ t. verify_x509_svid x509_client_lib (record c { workload_api_socket = t }) ≡ ok tt))
    × ((c : JwtSvidClient)
        → verify_jwt_svid_command in_tmp text_of jwt_client_lib relative c ≡ ok tt
        → ((c.bundle_source ≢ "") × (verify_jwt_svid jwt_client_lib c ≡ ok tt))
          ⊎ Dials in_tmp text_of relative
              (λ t. verify_jwt_svid jwt_client_lib (record c { workload_api_socket = t }) ≡ ok tt))
commands-IsLocal_example =
    commands-IsLocal in_tmp text_of (Unit {0}) (Unit {0}) jwt_client_lib x509_client_lib relative
