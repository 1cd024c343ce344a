-- ===== src/JwtInspect/Output.antt =====
-- The converters of token.go: JSON, YAML and the summary.
use spiffecli.Prelude.{
  ℕ, Bool, true, false, not, Option, none, some, List, [], ◌∷◌, ◌++◌, map, Result, ok, err, ◌>>=◌,
  map_err, String, ◌=ₛ◌, Bytes, codes, is_empty, lookup_text, if◌then◌else◌,
}
use spiffecli.Prelude.Int.{ℤ, pos, ◌-ℤ◌, ltb_ℤ}
use spiffecli.Style.{StyleLib, write_summary_field, get_error_message, write_error_message}
use spiffecli.Timeutil.{ZoneError, load_timezone}
use spiffecli.Jwt.{Header, Token, JoseLib}
use spiffecli.JwtInspect.{JwtReason, is_svid}

-- The map that is marshalled: the claims, and the headers if they are wanted.
pub record JwtMap (M : Type 0) : Type 0 where
  pub claims : M
  pub headers : Option (List Header)

-- The claims of a token as a map `M`, the marshallers, `time.LoadLocation` with the local zone, the texts
-- of a time in a zone and of the two largest units of a duration, lipgloss's list of items, the text of
-- a reason, and the text of a claim.
pub record OutputLib (M Z : Type 0) : Type 0 where
  pub style : StyleLib
  pub claims_map : Token → Result String M
  pub marshal_indent : JwtMap M → Result String (List ℕ)
  pub marshal : JwtMap M → Result String (List ℕ)
  pub marshal_yaml : JwtMap M → Result String (List ℕ)
  pub load_location : Bytes → Result String Z
  pub local : Z
  pub time_in : Z → ℤ → List ℕ
  pub duration : ℤ → List ℕ
  pub item_list : List (List ℕ) → List ℕ
  pub reason_text : JwtReason → List ℕ

-- `JwtInspectOutputOptions`
pub record OutputOptions : Type 0 where
  pub header : Bool
  pub indent : Bool
  pub color : Bool
  pub time_zone : Bytes

pub data ConvertError : Type 0 where
  unreadable_claims : ConvertError
  not_marshaled : String → ConvertError
  bad_time_zone : ZoneError → ConvertError

-- `SignatureAlgorithmDescriptions`; a look-up of another name gives the empty text.
abbrev pub signature_algorithm_descriptions : List (String × String)
signature_algorithm_descriptions =
    ("ES256", "ECDSA using P-256 curve and SHA-256")
    ∷ ("ES384", "ECDSA using P-384 curve and SHA-384")
    ∷ ("ES512", "ECDSA using P-521 curve and SHA-512")
    ∷ ("RS256", "RSASSA-PKCS1-v1_5 using SHA-256")
    ∷ ("RS384", "RSASSA-PKCS1-v1_5 using SHA-384")
    ∷ ("RS512", "RSASSA-PKCS1-v1_5 using SHA-512")
    ∷ ("PS256", "RSASSA-PSS using SHA-256 and MGF1-SHA-256")
    ∷ ("PS384", "RSASSA-PSS using SHA-384 and MGF1-SHA-384")
    ∷ ("PS512", "RSASSA-PSS using SHA-512 and MGF1-SHA-512")
    ∷ ("EdDSA", "EdDSA using Ed25519")
    ∷ ("HS256", "HMAC using SHA-256")
    ∷ ("HS384", "HMAC using SHA-384")
    ∷ ("HS512", "HMAC using SHA-512")
    ∷ []

unfoldable pub describe_algorithm : String → String
describe_algorithm alg = elim (lookup_text alg signature_algorithm_descriptions) [
  | none ↦ ""
  | some d ↦ d
]

-- `Expiry.Time()`, which for an absent expiry is the zero time.
abbrev pub expiry_time : Option ℤ → ℤ
expiry_time none = pos 0
expiry_time (some t) = t

abbrev pub to_unreadable : String → ConvertError
to_unreadable e = unreadable_claims

-- A text under a test
abbrev pub text_if : Bool → List ℕ → List ℕ
text_if b s = if b then s else []

module _ {M Z : Type 0} (jose : JoseLib) (lib : OutputLib M Z) where
  unfoldable pub convert_token_to_map : Token → OutputOptions → Result ConvertError (JwtMap M)
  convert_token_to_map tok options = do
    claims ← map_err to_unreadable (lib.claims_map tok)
    ok (record { claims = claims; headers = if options.header then some tok.headers else none })

  unfoldable pub convert_token_to_json : Token → OutputOptions → Result ConvertError (List ℕ)
  convert_token_to_json tok options = do
    jwt_map ← convert_token_to_map tok options
    map_err not_marshaled
        (if options.indent then lib.marshal_indent jwt_map else lib.marshal jwt_map)

  unfoldable pub convert_token_to_yaml : Token → OutputOptions → Result ConvertError (List ℕ)
  convert_token_to_yaml tok options = do
    jwt_map ← convert_token_to_map tok options
    map_err not_marshaled (lib.marshal_yaml jwt_map)

  abbrev pub field : OutputOptions → String → List ℕ → List ℕ
  field options name value = write_summary_field lib.style options.color (codes name) value

  -- What the summary says of the check
  unfoldable pub svid_text : OutputOptions → Result String (Bool × List JwtReason) → List ℕ
  svid_text options (err e) =
      codes "Could not determine whether this is a well-formed SVID: " ++ (codes e ++ 10 ∷ [])
  svid_text options (ok (true, reasons)) = codes "Appears to be a well-formed SVID." ++ 10 ∷ []
  svid_text options (ok (false, reasons)) =
      write_error_message lib.style options.color (codes "Not a well-formed SVID!")
      ++ (get_error_message lib.style options.color (lib.item_list (map lib.reason_text reasons))
          ++ 10 ∷ [])

  unfoldable pub expiry_text : OutputOptions → Z → ℤ → Option ℤ → List ℕ
  expiry_text options zone now expiry =
      if ltb_ℤ (expiry_time expiry) now
      then field options "Token expired at" (lib.time_in zone (expiry_time expiry))
      else codes "Token expires in " ++ (lib.duration (expiry_time expiry -ℤ now) ++ 10 ∷ [])

  unfoldable pub issued_text : OutputOptions → Z → Option ℤ → List ℕ
  issued_text options zone none = []
  issued_text options zone (some t) = field options "Token issued at" (lib.time_in zone t)

  unfoldable pub subject_text : OutputOptions → String → List ℕ
  subject_text options subject = text_if (not (subject =ₛ "")) (elim (jose.from_string subject) [
    | err e ↦ field options "Subject" (codes subject)
    | ok id ↦
        field options "SPIFFE ID" (codes id.text)
        ++ (field options "SPIFFE Trust Domain" (codes id.trust_domain)
            ++ field options "SPIFFE Path" (codes id.path))
  ])

  unfoldable pub headers_text : OutputOptions → List Header → List ℕ
  headers_text options [] = []
  headers_text options (h ∷ hs) =
      text_if (not (h.key_id =ₛ "")) (field options "Key ID" (codes h.key_id))
      ++ (text_if (not (h.algorithm =ₛ ""))
            (field options "Signature Algorithm" (codes (describe_algorithm h.algorithm)))
          ++ headers_text options hs)

  unfoldable pub time_zone : Bytes → Result ZoneError Z
  time_zone name = if is_empty name then ok lib.local else load_timezone lib.load_location name

  -- `convertTokenToSummary` at the time `now`
  unfoldable pub convert_token_to_summary : Token → OutputOptions → ℤ → Result ConvertError (List ℕ)
  convert_token_to_summary tok options now = do
    claims ← map_err to_unreadable tok.claims
    zone ← map_err bad_time_zone (time_zone options.time_zone)
    ok (
        svid_text options (is_svid jose tok)
        ++ (expiry_text options zone now claims.expiry
            ++ (issued_text options zone claims.issued_at
                ++ (subject_text options claims.subject
                    ++ (text_if (not (claims.issuer =ₛ ""))
                          (field options "Issuer" (codes claims.issuer))
                        ++ (text_if (not (is_empty claims.audience)) (
                              codes "Audience claims:"
                              ++ (10 ∷ lib.item_list (map codes claims.audience) ++ 10 ∷ []))
                            ++ headers_text options tok.headers))))))
