-- ===== src/Lib.antt =====
-- The SPIFFE command line tool: certificate and token inspection, minting authorities, the simulated
-- Workload API, PEM files, certificate verification.
--
-- The parts and their files (paths from the repository's root):
--   X509Inspect  internal/x509inspect: Links holds fingerprints, union and parents of chain.go; Chain
--     the leaf, the walk and the text of a chain; Tree the forest of tree.go; Certificate the decoded
--     fields and Summary the converters of certificate.go; Svid `checkIsSvid` and Inspector `Inspect`
--     of inspector.go; Terminal `sanitizeForTerminal`.
--   Cryptoutil   internal/cryptoutil/keys.go.
--   X509Authority, JwtAuthority  internal/x509authority and internal/jwtauthority, with keyid.go and
--     serialnumber.go of internal/x509util: `New`, minting, lifetimes.
--   JwtInspect   internal/jwtinspect: `isSvid`, Output the converters of token.go, Inspector `Inspect`; Jwt
--     holds the values of go-jose.
--   JwtSvid      sign.go, validate.go and, in Client, client.go of internal/jwtsvid.
--   X509Svid     internal/x509svid: client.go and uniqueid.go.
--   Bundle       internal/bundle: the source of keys, Output, Inspector and Client.
--   Watch        internal/watch: the formatter, Watchers the three watchers.
--   WlApi        internal/wlapi: Config is `LoadConfig`, TrustDomain the rotations and minting of
--     trustdomain.go, with Bundles for what it serves and the answers of federation.go, Workload the
--     stream of `FetchX509SVID`. Running is a trust domain after the rotations with which `Run` begins.
--   Timeutil, Style  internal/timeutil and internal/style/summary.go.
--   Pemutil      internal/pemutil.
--   X509Verify   internal/x509verify/client.go, internal/x509util/bundles.go and the flags of
--     `verify x509` in cmd/verify.go.
--   Cmd          `ensureUnixSocketAddress` of cmd/validation.go; Commands the checks of cmd/get.go,
--     cmd/watch.go and cmd/verify.go before they call Bundle, JwtSvid, X509Svid and Watch.
--   Cert holds the values of crypto/x509 and go-spiffe, Prelude the shared helpers, Tests the
--   properties at concrete inputs.
--
-- A Go function is a function of the same name in snake case. An error is a `Result`, what is written
-- to stderr is returned, time and random values are arguments, and a map is an association list or a
-- list of fingerprints. The trust domain is passed and returned; its X.509 authorities mint by
-- X509Authority, whose certificates X509Inspect.Svid judges; the workload stream calls the trust domain.
-- JwtSvid.Validation judges the tokens of JwtAuthority against the bundle of WlApi.TrustDomain.Bundles. The
-- JWT watcher runs over a list of signals, a stream over a list of callbacks, and the files of an SVID
-- are a store.
-- What crypto/x509, go-spiffe, go-jose, encoding/pem and the file system do is a parameter, a record of
-- functions; what is documented of it is a hypothesis, such as IsDocumented, IsShrinking, IsVerifying,
-- IsCodec or IsEscaping.
--
-- Fuel: the walk of a chain and the visit of a tree get one more than the number of certificates, and
-- the loop over PEM blocks one more than the length of the text. A walk and a visit never enter a
-- certificate twice, and each block shortens the text, so the fuel does not run out.
-- Times are unbounded integers of nanoseconds; Go's durations are 64 bits wide. The counter of JWT keys
-- wraps at 32 bits.
--
-- Not modelled: the registration of flags, the inspect and run commands, the start of the servers and
-- their sockets, lipgloss, and the drawing and highlighting, which are input and output; the clock, which
-- the calls get as an argument; and the locks: each function on a trust domain runs alone.
pub mod Prelude
pub mod Cert
pub mod X509Inspect
pub mod Cryptoutil
pub mod X509Authority
pub mod Pemutil
pub mod Jwt
pub mod JwtInspect
pub mod JwtAuthority
pub mod JwtSvid
pub mod WlApi
pub mod X509Verify
pub mod Cmd
pub mod Style
pub mod X509Svid
pub mod Bundle
pub mod Watch
pub mod Timeutil
pub mod Tests
