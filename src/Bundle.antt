-- ===== src/Bundle.antt =====
-- internal/bundle: where keys are read from (jwksource.go) here, their output in Output, the inspector in
-- Inspector, and the client of bundles in Client.
pub mod Output
pub mod Inspector
pub mod Client
pub mod KeyIds
pub mod Locations
use Prim.Native.String
use spiffecli.Prelude.{
  ℕ, ◌==◌, Bool, true, false, not, ◌&&◌, ◌||◌, Option, none, some, List, [], ◌∷◌, Result, ok, err,
  ◌>>=◌, ◌>>◌, guard, map_err, String, ◌=ₛ◌, one_of, Bytes, codes, has_prefix, if◌then◌else◌,
}

-- The parts of a `url.URL` that are read, with its `String()`.
pub record Url : Type 0 where
  pub scheme : String
  pub path : String
  pub text : String

pub data JwkSource : Type 0 where
  file : String → JwkSource
  http_url : Url → JwkSource

pub data BundleError : Type 0 where
  scheme_not_supported : String → String → BundleError
  invalid_path : String → String → BundleError
  unexpected_status : ℕ → BundleError
  get_failed read_failed parse_failed no_bundle : String → BundleError

-- `url.Parse` and `filepath.Clean`
pub record PathLib : Type 0 where
  pub parse : String → Result String Url
  pub clean : String → String

-- `HasPrefix(s, "http")`
abbrev pub is_http : String → Bool
is_http s = has_prefix (codes s) (codes "http")

module _ (lib : PathLib) where
  abbrev pub dot_path : String → Bool
  dot_path s = one_of s ("" ∷ "." ∷ ".." ∷ [])

  unfoldable pub file_of : String → String → Result BundleError JwkSource
  file_of path cleaned =
      if dot_path cleaned then err (invalid_path path cleaned) else ok (file cleaned)

  unfoldable pub source_of : String → Url → Result BundleError JwkSource
  source_of path u =
      if not (u.scheme =ₛ "") && not (u.scheme =ₛ "file")
      then (if is_http u.scheme then ok (http_url u) else err (scheme_not_supported u.scheme path))
      else if u.scheme =ₛ "file"
      then file_of path (lib.clean u.path)
      else file_of path (lib.clean path)

  -- `NewJwkSource`
  unfoldable pub new_jwk_source : String → Result BundleError JwkSource
  new_jwk_source path = elim (lib.parse path) [
    | ok u ↦ source_of path u
    | err e ↦ file_of path (lib.clean path)
  ]

-- `http.Get`, with the status and the outcome of reading the body, and `os.ReadFile`.
pub record ReadLib : Type 0 where
  pub get : String → Result String (ℕ × Result String Bytes)
  pub read_file : String → Result String Bytes

module _ (lib : ReadLib) where
  -- `http.Get` and the test of its status: the outcome of reading the body
  unfoldable pub response_body : Url → Result BundleError (Result String Bytes)
  response_body u = do
    response ← map_err get_failed (lib.get u.text)
    guard (response.0 == 200) (unexpected_status response.0)
    ok response.1

  -- `ParseKeys`, with `json.Unmarshal` of a key set
  unfoldable pub parse_keys {ℓ} :
      {K : Type ℓ} → (Bytes → Result String K) → JwkSource → Result BundleError K
  parse_keys unmarshal (file name) = do
    bytes ← map_err read_failed (lib.read_file name)
    map_err parse_failed (unmarshal bytes)
  parse_keys unmarshal (http_url u) = do
    body ← response_body u
    bytes ← map_err read_failed body
    map_err parse_failed (unmarshal bytes)

  -- `GetJWTBundleForTrustDomain`, with `jwtbundle.Load` of a file, `jwtbundle.Read` of a body, and
  -- the method of the same name of the bundle.
  unfoldable pub get_jwt_bundle_for_trust_domain {ℓ} :
      {B : Type ℓ}
      → (String → String → Result String B)
      → (String → Result String Bytes → Result String B)
      → (B → String → Result String B)
      → JwkSource
      → String
      → Result BundleError B
  get_jwt_bundle_for_trust_domain load read own (file name) td = do
    bundle ← map_err read_failed (load td name)
    map_err no_bundle (own bundle td)
  get_jwt_bundle_for_trust_domain load read own (http_url u) td = do
    body ← response_body u
    bundle ← map_err read_failed (read td body)
    map_err no_bundle (own bundle td)
