-- ===== src/Cmd/Commands.antt =====
-- cmd/get.go, cmd/verify.go and cmd/watch.go: what the commands check before they call their clients. The
-- flags are in the clients, the socket's flag and variable are bytes, and `text` is the native string of
-- the same text.
use spiffecli.Prelude.{
  Bool, not, ◌&&◌, List, [], ◌∷◌, Result, ok, err, ◌>>=◌, ◌>>◌, guard, map_err, String, ◌=ₛ◌, Bytes,
  is_empty, if◌then◌else◌,
}
use spiffecli.Cmd.{SocketError, socket_value, ensure_unix_socket_address}
use spiffecli.Bundle.Client.{BundleClient, ClientLib, ClientError, Written, get_bundle}
use spiffecli.JwtSvid.Client.{
  JwtSvidClient, JwtClientLib, JwtClientError, verify_jwt_svid, request_jwt_svid,
}
use spiffecli.X509Svid.{
  X509SvidClient, X509ClientLib, X509ClientError, Store, request_x509_svid, verify_x509_svid,
}
use spiffecli.Watch.{EventLib, WatchError}
use spiffecli.Watch.Watchers.{
  JwtSvidWatcher, Fetch, Signal, Update, Watched, watch_jwt, watch_x509, watch_bundle,
}

pub data CommandError : Type 0 where
  no_socket no_socket_or_bundle no_argument no_audiences : CommandError
  bad_socket : SocketError → CommandError
  bad_format : String → CommandError
  jwt_failed : JwtClientError → CommandError
  x509_failed : X509ClientError → CommandError
  bundle_failed : ClientError → CommandError
  watch_failed : WatchError → CommandError

-- The flag of the socket and its environment variable.
pub record Socket : Type 0 where
  pub flag : Bytes
  pub env : Bytes

abbrev pub value : Socket → Bytes
value s = socket_value s.flag s.env

-- The `PersistentPreRunE` of `get` and `watch`, and the `PreRunE` of `verify x509-svid`
unfoldable pub require_socket : Socket → Result CommandError (Unit {0})
require_socket s = guard (not (is_empty (value s))) no_socket

-- The one argument of a command
unfoldable pub one_argument : List String → Result CommandError String
one_argument (a ∷ []) = ok a
one_argument _ = err no_argument

-- What a watcher of a stream gets: the client for a socket, the context, the time, the callbacks, and
-- the end of the stream.
pub record Stream : Type 0 where
  pub new_client : String → Result String (Unit {0})
  pub cancelled : Bool
  pub now : Bytes
  pub updates : List Update
  pub ended_with : Result String (Unit {0})
  pub cancelled_then : Bool

module _ (abs : Bytes → Result Bytes Bytes) (text : Bytes → String) where
  unfoldable pub socket_address : Socket → Result CommandError String
  socket_address s = do
    address ← map_err bad_socket (ensure_unix_socket_address abs (value s))
    ok (text address)

  -- `get jwt-svid`, with the exchange token of the flag or the environment
  unfoldable pub get_jwt_svid :
      {W V : Type 0}
      → JwtClientLib W V
      → Socket
      → JwtSvidClient
      → String
      → Result CommandError Written
  get_jwt_svid lib s c exchange_token = do
    require_socket s
    socket ← socket_address s
    map_err jwt_failed
        (request_jwt_svid lib (record c { workload_api_socket = socket }) exchange_token)

  -- `get x509-svid`: the store where the client was called
  unfoldable pub get_x509_svid :
      {W V : Type 0}
      → X509ClientLib W V
      → Socket
      → X509SvidClient
      → String
      → Store
      → Result CommandError (Bytes × Store × Result X509ClientError (Unit {0}))
  get_x509_svid lib s c exchange_token store = do
    require_socket s
    socket ← socket_address s
    ok (request_x509_svid lib (record c { workload_api_socket = socket }) exchange_token store)

  -- The switch on the format of `get bundle`, with the libraries of JWT and X.509 bundles
  unfoldable pub bundle_of_format :
      {S T A B : Type 0}
      → ClientLib S A
      → ClientLib T B
      → BundleClient
      → String
      → Result CommandError Written
  bundle_of_format jwt x509 c format =
      if format =ₛ "jwt"
      then map_err bundle_failed (get_bundle jwt c)
      else if format =ₛ "x509"
      then map_err bundle_failed (get_bundle x509 c)
      else err (bad_format format)

  -- `get bundle`
  unfoldable pub get_bundle_command :
      {S T A B : Type 0}
      → ClientLib S A
      → ClientLib T B
      → Socket
      → BundleClient
      → List String
      → Result CommandError Written
  get_bundle_command jwt x509 s c args = do
    require_socket s
    format ← one_argument args
    socket ← socket_address s
    bundle_of_format jwt x509 (record c { workload_api_socket = socket }) format

  -- The client of `verify jwt-svid`, whose socket is only set without a bundle
  unfoldable pub verify_client : Socket → JwtSvidClient → Result CommandError JwtSvidClient
  verify_client s c =
      let dialing = socket_address s >>= λ a. ok (record c { workload_api_socket = a }) in
      if c.bundle_source =ₛ "" then dialing else ok c

  -- `verify jwt-svid`
  unfoldable pub verify_jwt_svid_command :
      {W V : Type 0} → JwtClientLib W V → Socket → JwtSvidClient → Result CommandError (Unit {0})
  verify_jwt_svid_command lib s c = do
    guard (not (is_empty (value s) && c.bundle_source =ₛ "")) no_socket_or_bundle
    client ← verify_client s c
    map_err jwt_failed (verify_jwt_svid lib client)

  -- `verify x509-svid`
  unfoldable pub verify_x509_svid_command :
      {W V : Type 0} → X509ClientLib W V → Socket → X509SvidClient → Result CommandError (Unit {0})
  verify_x509_svid_command lib s c = do
    require_socket s
    socket ← socket_address s
    map_err x509_failed (verify_x509_svid lib (record c { workload_api_socket = socket }))

  -- `watch x509-svid`: the lines and the outcome
  unfoldable pub watch_x509_svid_command :
      EventLib
      → Socket
      → String
      → Stream
      → Result CommandError (List Bytes × Result WatchError (Unit {0}))
  watch_x509_svid_command lib s format stream = do
    require_socket s
    socket ← socket_address s
    ok (
        watch_x509 lib format (stream.new_client socket) stream.cancelled stream.now stream.updates
          stream.ended_with stream.cancelled_then)

  -- `watch bundle`
  unfoldable pub watch_bundle_command :
      EventLib
      → Socket
      → String
      → Stream
      → List String
      → Result CommandError (List Bytes × Result WatchError (Unit {0}))
  watch_bundle_command lib s format stream args = do
    require_socket s
    bundle_type ← one_argument args
    socket ← socket_address s
    ok (
        watch_bundle lib bundle_type format (stream.new_client socket) stream.cancelled stream.now
          stream.updates stream.ended_with stream.cancelled_then)

  -- `watch jwt-svid`
  unfoldable pub watch_jwt_svid_command :
      EventLib
      → Socket
      → JwtSvidWatcher
      → (String → Result String (Unit {0}))
      → Bool
      → Bytes
      → Fetch
      → List Signal
      → Result CommandError Watched
  watch_jwt_svid_command lib s w new_client cancelled now first signals = do
    require_socket s
    guard (not (is_empty w.audiences)) no_audiences
    socket ← socket_address s
    map_err watch_failed (watch_jwt lib w (new_client socket) cancelled now first signals)
