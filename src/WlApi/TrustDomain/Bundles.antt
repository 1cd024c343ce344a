-- ===== src/WlApi/TrustDomain/Bundles.antt =====
-- trustdomain.go: the bundles that a trust domain hands out, and the rotations at the start of `Run`.
-- federation.go: the answers of the federation endpoint. workload.go: the bundle streams.
use spiffecli.Prelude.{
  ℕ, not, ◌||◌, Option, none, some, List, [], ◌∷◌, Result, ok, err, ◌>>=◌, String, ◌=ₛ◌, Bytes,
  if◌then◌else◌,
}
use spiffecli.Prelude.Int.{ℤ}
use spiffecli.Cert.{Uri, PublicKey, Cert}
use spiffecli.X509Authority.{Signer, CaLib}
use spiffecli.WlApi.TrustDomain.{
  X509AuthorityInfo, JwtAuthorityInfo, TrustDomain, TdError, rotate_x509_authority,
  rotate_jwt_authority, x509_bundles,
}

-- `spiffebundle.New`, `AddX509Authority`, `AddJWTAuthority` and `Marshal`, for bundles `B`.
pub record BundleLib (B : Type 0) : Type 0 where
  pub empty : String → B
  pub add_x509_authority : B → Cert → B
  pub add_jwt_authority : B → String → PublicKey → Result String B
  pub marshal : B → Result String Bytes

-- The map of `JWTBundles` from key IDs to keys, as its loop fills it.
unfoldable pub jwt_keys :
    List JwtAuthorityInfo → List (String × PublicKey) → List (String × PublicKey)
jwt_keys [] m = m
jwt_keys (a ∷ as') m = jwt_keys as' ((a.key_id, a.pk.public) ∷ m)

-- `JWTBundles`: the one entry of its map, with `IDString` of the trust domain, and `Marshal` of the
-- bundle that `FromJWTAuthorities` makes.
unfoldable pub jwt_bundles :
    (String → String)
    → (String → List (String × PublicKey) → Result String Bytes)
    → TrustDomain
    → Result String (String × Bytes)
jwt_bundles id_string marshal td = do
  bytes ← marshal td.config.name (jwt_keys td.jwt_authorities [])
  ok (id_string td.config.name, bytes)

module _ {B : Type 0} (lib : BundleLib B) where
  unfoldable pub add_x509 : List X509AuthorityInfo → B → B
  add_x509 [] b = b
  add_x509 (a ∷ as') b = add_x509 as' (lib.add_x509_authority b a.cert)

  unfoldable pub add_jwt : List JwtAuthorityInfo → B → Result String B
  add_jwt [] b = ok b
  add_jwt (a ∷ as') b = lib.add_jwt_authority b a.key_id a.pk.public >>= add_jwt as'

  -- `Bundle`
  unfoldable pub bundle : TrustDomain → Result String B
  bundle td = add_jwt td.jwt_authorities (add_x509 td.x509_authorities (lib.empty td.config.name))

-- What the federation endpoint answers: one of its errors, or the text of a bundle.
pub data Answer : Type 0 where
  bad_request not_found : Answer
  internal_error : String → Answer
  served : Bytes → Answer

-- `path.Split` as a parameter
module _ {B : Type 0} (lib : BundleLib B) (split : String → String × String) where
  -- `renderBundle`
  unfoldable pub render_bundle : Result String B → Answer
  render_bundle (err e) = internal_error e
  render_bundle (ok b) = elim (lib.marshal b) [ err e ↦ internal_error e | ok bytes ↦ served bytes ]

  unfoldable pub find_and_render : List TrustDomain → String → Answer
  find_and_render [] name = not_found
  find_and_render (td ∷ tds) name =
      let rest = find_and_render tds name in
      if td.config.name =ₛ name then render_bundle (bundle lib td) else rest

  -- `ServeHTTP` for a method and a path
  unfoldable pub serve_http : List TrustDomain → String → String → Answer
  serve_http tds method path =
      let (dir, name) = split path in
      if not (method =ₛ "GET") || (not (dir =ₛ "/") || name =ₛ "")
      then bad_request
      else find_and_render tds name

-- The rotations with which `Run` begins.
module _ (ca : CaLib) (td_uri : String → Uri) (decimal : ℕ → String) where
  unfoldable pub first_rotations :
      Result String Signer
      → Result String Signer
      → ℤ
      → Result String ℕ
      → ℕ
      → TrustDomain
      → Result TdError (TrustDomain × ℕ)
  first_rotations x509_key jwt_key now random counter td = do
    rotated ← rotate_x509_authority ca td_uri decimal x509_key now random td
    rotate_jwt_authority ca td_uri decimal jwt_key now counter rotated

-- How a bundle stream ends: where the bundles or `Send` failed, else with the error of its context,
-- none when it was canceled.
pub data StreamEnd : Type 0 where
  closed : StreamEnd
  failed : String → StreamEnd

-- `FetchX509Bundles` and `FetchJWTBundles` after their bundles: what was sent, and the end.
unfoldable pub stream_bundles :
    Result String (String × Bytes)
    → Result String (Unit {0})
    → Option String
    → List (String × Bytes) × StreamEnd
stream_bundles (err e) send context = ([], failed e)
stream_bundles (ok entry) (err e) context = ([], failed e)
stream_bundles (ok entry) (ok u) none = (entry ∷ [], closed)
stream_bundles (ok entry) (ok u) (some e) = (entry ∷ [], failed e)

unfoldable pub fetch_x509_bundles :
    (String → String)
    → TrustDomain
    → Result String (Unit {0})
    → Option String
    → List (String × Bytes) × StreamEnd
fetch_x509_bundles id_string td = stream_bundles (ok (x509_bundles id_string td))

unfoldable pub fetch_jwt_bundles :
    (String → String)
    → (String → List (String × PublicKey) → Result String Bytes)
    → TrustDomain
    → Result String (Unit {0})
    → Option String
    → List (String × Bytes) × StreamEnd
fetch_jwt_bundles id_string marshal td = stream_bundles (jwt_bundles id_string marshal td)
