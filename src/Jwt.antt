-- ===== src/Jwt.antt =====
-- The values of go-jose that the program reads from a token, and the calls of go-jose and go-spiffe
-- as a parameter. Times are nanoseconds since the zero `time.Time`.
use spiffecli.Prelude.{String, Option, List, Result}
use spiffecli.Prelude.Int.{ℤ}
use spiffecli.Cert.{SpiffeId}
use spiffecli.Cryptoutil.{SignatureAlgorithm}
use spiffecli.X509Authority.{Signer}

-- The value of an extra header: absent or null, a text, or anything else.
pub data HeaderValue : Type 0 where
  nil : HeaderValue
  text : String → HeaderValue
  other : HeaderValue

-- A `jose.Header`. `extra` is none where `ExtraHeaders` is nil, else it gives the value of `typ`.
pub record Header : Type 0 where
  pub algorithm : String
  pub key_id : String
  pub extra_typ : Option HeaderValue

-- `jwt.Claims`; the times of absent claims are none.
pub record Claims : Type 0 where
  pub issuer : String
  pub subject : String
  pub audience : List String
  pub expiry : Option ℤ
  pub issued_at : Option ℤ
  pub id : String

-- A parsed token, with what `UnsafeClaimsWithoutVerification` returns.
pub record Token : Type 0 where
  pub headers : List Header
  pub claims : Result String Claims

-- A signer of go-jose for tokens of the type JWT.
pub record JwtSigner : Type 0 where
  pub algorithm : SignatureAlgorithm
  pub key : Signer
  pub key_id : String

-- `NewSigner`, `Signed(…).Claims(…).CompactSerialize`, `ParseSigned`, `NewNumericDate(…).Time` (which
-- cuts a time to its second), and `spiffeid.FromString`.
pub record JoseLib : Type 0 where
  pub new_signer : JwtSigner → Result String JwtSigner
  pub sign : JwtSigner → Claims → Result String String
  pub parse_signed : String → Result String Token
  pub numeric_date : ℤ → ℤ
  pub from_string : String → Result String SpiffeId
