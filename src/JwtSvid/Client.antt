-- ===== src/JwtSvid/Client.antt =====
-- client.go of internal/jwtsvid: `get` and `verify` of JWT-SVIDs.
use spiffecli.Prelude.{
  Bool, not, ◌&&◌, Option, none, some, List, [], ◌∷◌, ◌++◌, Result, ok, err, ◌>>=◌, ◌>>◌, guard,
  map_err, String, ◌=ₛ◌, Bytes, is_empty, if◌then◌else◌,
}
use spiffecli.Bundle.{JwkSource, BundleError, PathLib, new_jwk_source}
use spiffecli.Bundle.Client.{Written, printed, wrote_file}

pub record JwtSvidClient : Type 0 where
  pub decode : Bool
  pub filename : String
  pub audiences : List String
  pub token : String
  pub workload_api_socket : String
  pub bundle_source : String
  pub trust_domain : String

pub data JwtClientError : Type 0 where
  no_audiences no_trust_domain no_token empty_token_file index_panic : JwtClientError
  bad_bundle : BundleError → JwtClientError
  no_source not_opened not_read not_valid not_fetched not_decoded not_written :
      String → JwtClientError

-- What the first `Scan` of a token file gives.
pub data Scan : Type 0 where
  scanned : String → Scan
  at_end : Scan
  scan_failed : String → Scan

-- `jwtsvid.Params`
pub record Params : Type 0 where
  pub audience : String
  pub extra_audiences : List String

-- A source of JWT bundles: keys at a location, or the Workload API.
pub data Source (W : Type 0) : Type 0 where
  jwk : JwkSource → Source W
  workload_api : W → Source W

-- go-spiffe's `NewJWTSource` at a socket, with the exchange token of the context if there is one,
-- `FetchJWTSVID`, `ParseAndValidate`, `Marshal` and `json.Marshal` of an SVID; and the file system.
pub record JwtClientLib (W V : Type 0) : Type 0 where
  pub paths : PathLib
  pub new_jwt_source : String → Option String → Result String W
  pub fetch_jwt_svid : W → Params → Result String V
  pub parse_and_validate : String → Source W → List String → Result String V
  pub marshal : V → Bytes
  pub marshal_json : V → Result String Bytes
  pub open_file : String → Result String Scan
  pub write_file : String → Bytes → Result String (Unit {0})

-- `validateOptions`
unfoldable pub validate_options : JwtSvidClient → Result JwtClientError (Unit {0})
validate_options c = do
  guard (not (is_empty c.audiences)) no_audiences
  guard (not (not (c.bundle_source =ₛ "") && c.trust_domain =ₛ "")) no_trust_domain

-- `createParams`; none where `Audiences[0]` panics, which then is `index_panic`.
unfoldable pub create_params : List String → Option Params
create_params [] = none
create_params (a ∷ extra) = some (record { audience = a; extra_audiences = extra })

-- The first line of a token file
unfoldable pub first_line : Scan → Result JwtClientError String
first_line (scanned s) = ok s
first_line at_end = err empty_token_file
first_line (scan_failed e) = err (not_read e)

module _ {W V : Type 0} (lib : JwtClientLib W V) (c : JwtSvidClient) where
  -- `getToken`
  unfoldable pub get_token : Result JwtClientError String
  get_token =
      let from_file = map_err not_opened (lib.open_file c.filename) >>= first_line in
      if not (c.token =ₛ "")
      then ok c.token
      else if not (c.filename =ₛ "")
      then from_file
      else err no_token

  -- `getBundleSource`
  unfoldable pub get_bundle_source : Result JwtClientError (Source W)
  get_bundle_source =
      if not (c.bundle_source =ₛ "")
      then (do
        source ← map_err bad_bundle (new_jwk_source lib.paths c.bundle_source)
        ok (jwk source))
      else do
        source ← map_err no_source (lib.new_jwt_source c.workload_api_socket none)
        ok (workload_api source)

  -- `VerifyJWTSVID`
  unfoldable pub verify_jwt_svid : Result JwtClientError (Unit {0})
  verify_jwt_svid = do
    validate_options c
    source ← get_bundle_source
    token ← get_token
    svid ← map_err not_valid (lib.parse_and_validate token source c.audiences)
    ok tt

  unfoldable pub decode_json : V → Result JwtClientError Written
  decode_json svid = do
    json_text ← map_err not_decoded (lib.marshal_json svid)
    ok (printed (json_text ++ 10 ∷ []))

  unfoldable pub write_svid : V → Result JwtClientError Written
  write_svid svid = do
    map_err not_written (lib.write_file c.filename (lib.marshal svid))
    ok (wrote_file c.filename (lib.marshal svid))

  -- `outputSVID`
  unfoldable pub output_svid : V → Result JwtClientError Written
  output_svid svid =
      let json_out = decode_json svid in
      let file_out = write_svid svid in
      if c.decode
      then json_out
      else if not (c.filename =ₛ "")
      then file_out
      else ok (printed (lib.marshal svid ++ 10 ∷ []))

  unfoldable pub fetch_with : Option Params → W → Result JwtClientError V
  fetch_with none source = err index_panic
  fetch_with (some params) source = map_err not_fetched (lib.fetch_jwt_svid source params)

  -- `IDExchangeTokenFromContext`, where an absent token is empty
  abbrev pub exchange_option : String → Option String
  exchange_option t = if t =ₛ "" then none else some t

  -- `RequestJWTSVID`, in a context with this exchange token
  unfoldable pub request_jwt_svid : String → Result JwtClientError Written
  request_jwt_svid exchange_token = do
    validate_options c
    source ←
        map_err no_source
          (lib.new_jwt_source c.workload_api_socket (exchange_option exchange_token))
    svid ← fetch_with (create_params c.audiences) source
    output_svid svid
