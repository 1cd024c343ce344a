-- ===== src/Tests/Services.antt =====
-- PEM texts, verifications, a configuration and socket addresses.
use spiffecli.Prelude.{
  ℕ, zero, suc, ◌≤◌, ◌≡◌, ◌⊎◌, refl, ap, true, false, Option, none, some, List, [], ◌∷◌, ◌++◌,
  Result, ok, err, String, Bytes, All, codes, length, arith,
}
use spiffecli.Prelude.Int.{pos}
use spiffecli.Cert.{Cert}
use spiffecli.Pemutil.{
  PemError, Block, PemBlock, certificate_type, PemLib, Key, rsa_key, finish, parse_object,
  parse_one, parse_loop, parse_blocks, parse_certificates, certs_from_blocks, cert_from_object,
  encode_certificates,
}
use spiffecli.Pemutil.Blocks.{Decodes, IsShrinking}
use spiffecli.Pemutil.Outcomes.{Outcome, IsFinal, parse_blocks_correct}
use spiffecli.Pemutil.Certificates.{IsDocumented, parse-encode_certificates}
use spiffecli.X509Verify.{
  Verifier, Url, VerifyError, no_leaf, VerifyLib, Files, root_programs, split_chain,
  extract_leaf_and_intermediates, validate_options, read_certificates_from_file,
  parse_ca_bundle_from_file, read_chain_file, read_chain, get_certificate_chain, trust_roots,
  verify_certificate, ca_flags_set, pre_run, verify_x509,
}
use spiffecli.X509Verify.Leaf.{IsCa, IsSplit, extract_leaf_and_intermediates_correct}
use spiffecli.X509Verify.Sources.{
  IsVerified, verify_x509-IsVerified, get_certificate_chain-file_url,
}
use spiffecli.WlApi.Config.{
  Config, ConfigToml, ConfigLib, or_default, load_workload, load_trust_domain, load_config, minutes,
}
use spiffecli.WlApi.Config.Load.{IsLoaded, load_config-IsLoaded}
use spiffecli.Cmd.{IsLocal, ensure_unix_socket_address, ensure_unix_socket_address_correct}
use spiffecli.Tests.Fixtures.{root, leaf, key, id}

-- A block is its length and its bytes.
abbrev cut : ℕ → Bytes → Bytes × Bytes
cut zero bs = ([], bs)
cut (suc n) [] = ([], [])
cut (suc n) (b ∷ bs) = let (front, back) = cut n bs in (b ∷ front, back)

cut-append : (front back : Bytes) → cut (length front) (front ++ back) ≡ (front, back)
cut-append [] back = refl
cut-append (b ∷ front) back = rw (cut-append front back) refl

cut_le : (n : ℕ) (bs : Bytes) → length (cut n bs).1 ≤ length bs
cut_le zero bs = omega arith
cut_le (suc n) [] = omega arith
cut_le (suc n) (b ∷ bs) = omega (arith, cut_le n bs)

abbrev decode : Bytes → Option (PemBlock × Bytes)
decode [] = none
decode (n ∷ bs) = some (record { kind = certificate_type; bytes = (cut n bs).0 }, (cut n bs).1)

abbrev parse : Bytes → Result String Cert
parse [] = err "empty"
parse (zero ∷ bs) = err "zero"
parse (suc zero ∷ bs) = ok root
parse (suc (suc n) ∷ bs) = ok leaf

abbrev a_key : Key
a_key = record { kind = rsa_key; is_signer = true; encoding = [] }

abbrev pub pem : PemLib
pem = record {
  decode = decode;
  encode = λ p. length p.bytes ∷ p.bytes;
  parse_certificate = parse;
  parse_request = λ b. ok b;
  parse_pkcs1 = λ b. ok a_key;
  parse_ec = λ b. err "ec";
  parse_pkcs8 = λ b. ok a_key;
  parse_pkix = λ b. ok key;
  read_file = λ p. err "missing";
}

pub pem-IsShrinking : IsShrinking pem
pem-IsShrinking [] rest p h = cc
pem-IsShrinking (n ∷ bs) rest p h =
    let same : (cut n bs).1 ≡ rest = ground (arith, h) in
    omega (arith, cut_le n bs, ap (length {A = ℕ}) same)

pem-IsDocumented : IsDocumented pem
pem-IsDocumented = record {
  shrinking = pem-IsShrinking;
  encoded = λ der rest. rw (cut-append der rest) refl;
  empty = refl;
}

parse-encode_certificates_example :
    parse_certificates pem (encode_certificates pem (leaf ∷ root ∷ [])) ≡ ok (leaf ∷ root ∷ [])
parse-encode_certificates_example =
    parse-encode_certificates pem pem-IsDocumented leaf (root ∷ []) (refl, (refl, tt))

parse_blocks_correct_example :
    (ps : List PemBlock) × (r : Result PemError (List Block)) × Decodes pem (1 ∷ 2 ∷ []) ps
    × Outcome pem (certificate_type ∷ []) 1 ps r
    × IsFinal 1 r (parse_blocks pem (1 ∷ 2 ∷ []) 1 (certificate_type ∷ []))
parse_blocks_correct_example =
    parse_blocks_correct pem pem-IsShrinking (1 ∷ 2 ∷ []) 1 (certificate_type ∷ [])

one_certificate : parse_certificates pem (1 ∷ 2 ∷ []) ≡ ok (leaf ∷ [])
unfolding parse_certificates parse_blocks parse_loop parse_one parse_object finish certs_from_blocks
    cert_from_object
one_certificate = refl

extract_leaf_and_intermediates_correct_example :
    (All IsCa (root ∷ leaf ∷ [])
      × (extract_leaf_and_intermediates (root ∷ leaf ∷ []) ≡ err no_leaf))
    ⊎ ((l : Cert) × (rest : List Cert) × IsSplit l (root ∷ leaf ∷ []) rest
        × (extract_leaf_and_intermediates (root ∷ leaf ∷ []) ≡ ok (l, some rest)))
extract_leaf_and_intermediates_correct_example = extract_leaf_and_intermediates_correct root leaf []

abbrev plain_url : Url
plain_url = record { scheme = ""; path = "chain.pem"; text = "chain.pem" }

abbrev pub file_url : Url
file_url = record { scheme = "file"; path = "/chain.pem"; text = "file:///chain.pem" }

abbrev pub verify_lib : Url → VerifyLib
verify_lib url = record {
  parse_url = λ t. ok url;
  abs = λ p. ok p;
  is_file_path = λ p. true;
  parse_der = λ b p. err "der";
  decode_chain = λ b p. err "p12";
  parse_pem = λ b. ok (leaf ∷ root ∷ []);
  load_pem_cert_pool = λ files p. ok (root ∷ []);
  decode_trust_store = λ b p. err "p12";
  system_cert_pool = err "none";
  peer_certificates = λ u. err "offline";
  create_temp = err "full";
  get = λ u. err "offline";
  verify = λ c roots pool. ok ((c ∷ roots) ∷ []);
  render_paths = λ ps. "path";
}

abbrev verifier : String → Verifier
verifier certificate = record {
  certificate = certificate;
  format = "pem";
  password = "";
  ca_bundle = "roots.pem";
  ca_format = "pem";
  ca_password = "";
  system_bundle = false;
  root_program = "";
  show_path = true;
}

abbrev some_files : Files
some_files p = ok (1 ∷ [])

abbrev pub no_files : Files
no_files p = err "no such file"

verified : verify_x509 (verify_lib plain_url) some_files (verifier "chain.pem") ≡ ok (some "path")
unfolding verify_x509 pre_run ca_flags_set verify_certificate validate_options root_programs
    get_certificate_chain read_chain read_chain_file read_certificates_from_file
    extract_leaf_and_intermediates split_chain trust_roots parse_ca_bundle_from_file
verified = refl

verify_x509-IsVerified_example : IsVerified (verify_lib plain_url) some_files (verifier "chain.pem")
verify_x509-IsVerified_example =
    verify_x509-IsVerified (verify_lib plain_url) some_files (verifier "chain.pem") (some "path")
      verified

get_certificate_chain-file_url_example :
    (e : VerifyError) × (get_certificate_chain
        (verify_lib file_url)
        no_files
        (verifier "file:///chain.pem")
      ≡ err e)
get_certificate_chain-file_url_example =
    get_certificate_chain-file_url (verify_lib file_url) no_files (verifier "file:///chain.pem")
      file_url "no such file" refl refl refl

abbrev toml : ConfigToml
toml = record {
  trust_domains =
      (
        "example.org",
        record {
          x509_authority_ttl = pos 0;
          jwt_authority_ttl = pos 5;
          workloads =
              (
                "web",
                record {
                  id_path = "";
                  socket_path = "";
                  x509_svid_ttl = pos 0;
                  x509_svid_rotate_at = pos 7;
                  jwt_svid_ttl = pos 0;
                },
              )
              ∷ [];
        },
      )
      ∷ [];
  federation_port = pos 8443;
}

abbrev config_lib : ConfigLib
config_lib = record {
  read_file = λ p. ok "toml";
  decode = λ t. ok toml;
  validate_path_segment = λ s. ok tt;
  validate_path = λ s. ok tt;
  from_path = λ td p. ok id;
  temp_socket = λ td name. name;
}

abbrev config : Config
config = record {
  trust_domains =
      record {
        name = "example.org";
        x509_authority_ttl = minutes 1440;
        jwt_authority_ttl = pos 5;
        workloads =
            record {
              id = id;
              socket_path = "web.sock";
              x509_svid_ttl = minutes 60;
              x509_svid_rotate_at = pos 7;
              jwt_svid_ttl = minutes 60;
            }
            ∷ [];
      }
      ∷ [];
  federation_port = pos 8443;
}

loaded : load_config config_lib "dev.toml" ≡ ok config
unfolding load_config load_trust_domain load_workload or_default
loaded = refl

load_config-IsLoaded_example : IsLoaded config_lib "dev.toml" config
load_config-IsLoaded_example = load_config-IsLoaded config_lib "dev.toml" config loaded

abbrev abs : Bytes → Result Bytes Bytes
abs p = ok (47 ∷ p)

ensure_unix_socket_address_correct_example :
    ((s : Bytes) → ensure_unix_socket_address abs (codes "unix:///s") ≡ ok s → IsLocal s)
    × (IsLocal (codes "unix:///s")
        → ensure_unix_socket_address abs (codes "unix:///s") ≡ ok (codes "unix:///s"))
ensure_unix_socket_address_correct_example =
    ensure_unix_socket_address_correct abs (codes "unix:///s")
