-- ===== src/WlApi/Workload.antt =====
-- workload.go: the stream of `FetchX509SVID` and the answer of `FetchJWTSVID`. A turn of the stream
-- holds what its calls return and the trust domain as it stands then, since it may rotate between
-- turns.
pub mod Stream
use spiffecli.Prelude.{
  ℕ, List, [], ◌∷◌, ◌++◌, Option, some, Result, ok, err, ◌>>=◌, map_err, String, Bytes,
}
use spiffecli.Prelude.Int.{ℤ}
use spiffecli.Cert.{Cert}
use spiffecli.Jwt.{JoseLib}
use spiffecli.X509Authority.{Signer, CaLib}
use spiffecli.WlApi.Config.{WorkloadConfig}
use spiffecli.WlApi.TrustDomain.{
  TrustDomain, TdError, td_mint_x509_svid, td_mint_jwt_svid, der_from_certificates,
}

pub data WorkloadError : Type 0 where
  generating marshaling sending waiting : String → WorkloadError
  minting : TdError → WorkloadError

-- What ends the wait after a response.
pub data Wake : Type 0 where
  rotate canceled : Wake
  stream_failed : String → Wake

pub record Turn : Type 0 where
  pub td : TrustDomain
  pub generated : Result String Signer
  pub marshal : Signer → Result String Bytes
  pub now : ℤ
  pub random : Result String ℕ
  pub send : Result String (Unit {0})
  pub wake : Wake

pub record X509Response : Type 0 where
  pub spiffe_id : String
  pub x509_svid : Bytes
  pub x509_svid_key : Bytes
  pub bundle : Bytes

pub data Outcome : Type 0 where
  running finished : Outcome
  failed : WorkloadError → Outcome

module _ (ca : CaLib) (config : WorkloadConfig) where
  -- The response of one turn
  unfoldable pub x509_response : Turn → Result WorkloadError X509Response
  x509_response t = do
    key ← map_err generating t.generated
    key_bytes ← map_err marshaling (t.marshal key)
    minted ←
        map_err minting (
          td_mint_x509_svid ca t.td t.now t.random config.id (some key.public) config.x509_svid_ttl)
    ok (record {
      spiffe_id = config.id.text;
      x509_svid = minted.0.raw;
      x509_svid_key = key_bytes;
      bundle = der_from_certificates minted.1;
    })

  -- `FetchX509SVID`: the responses that were sent, and how it ended after these turns.
  unfoldable pub fetch_x509_svid : List Turn → List X509Response × Outcome
  fetch_x509_svid [] = ([], running)
  fetch_x509_svid (t ∷ ts) =
      let rest = fetch_x509_svid ts in
      elim (x509_response t) [
        | err e ↦ ([], failed e)
        | ok response ↦ elim t.send [
          | err e ↦ ([], failed (sending e))
          | ok u ↦ elim t.wake [
            | canceled ↦ (response ∷ [], finished)
            | stream_failed e ↦ (response ∷ [], failed (waiting e))
            | rotate ↦ (response ∷ rest.0, rest.1)
          ]
        ]
      ]

-- `FetchJWTSVID`: the ID's text and the token.
unfoldable pub fetch_jwt_svid :
    JoseLib
    → WorkloadConfig
    → TrustDomain
    → ℤ
    → Result String String
    → List String
    → Result TdError (String × String)
fetch_jwt_svid lib config td now random audience = do
  svid ← td_mint_jwt_svid lib td now random config.id audience config.jwt_svid_ttl
  ok (config.id.text, svid)
