-- ===== src/JwtInspect.antt =====
-- internal/jwtinspect: the check of a JWT-SVID.
pub mod Conformance
pub mod Output
pub mod Inspector
use Prim.Native.String
use spiffecli.Prelude.{
  Bool, true, false, not, ◌||◌, Option, none, some, List, [], ◌∷◌, ◌++◌, Result, ok, err, String,
  if◌then◌else◌, ◌=ₛ◌, one_of, is_empty, is_ok,
}
use spiffecli.Prelude.Int.{ℤ, pos, eqb_ℤ}
use spiffecli.Jwt.{HeaderValue, nil, text, other, Header, Claims, Token, JoseLib}

abbrev pub svid_signature_algorithms : List String
svid_signature_algorithms =
    "RS256" ∷ "RS384" ∷ "RS512" ∷ "ES256" ∷ "ES384" ∷ "ES512" ∷ "PS256" ∷ "PS384" ∷ "PS512" ∷ []

pub data JwtReason : Type 0 where
  unsupported_algorithm bad_typ bad_subject no_audience bad_expiry : JwtReason

-- `usesSupportedAlgorithm` and `typeHeaderCorrect`
pub record Flags : Type 0 where
  pub supported : Bool
  pub typ_correct : Bool

-- the `switch` on the value of `typ`
abbrev pub typ_allowed : HeaderValue → Bool
typ_allowed nil = true
typ_allowed (text t) = t =ₛ "JWT" || t =ₛ "JOSE"
typ_allowed other = false

abbrev pub typ_of_header : Option HeaderValue → Bool
typ_of_header none = false
typ_of_header (some v) = typ_allowed v

-- one round of the loop over the headers
unfoldable pub scan_header : Flags → Header → Flags
scan_header f h = record {
  supported =
      if not (h.algorithm =ₛ "")
      then (if one_of h.algorithm svid_signature_algorithms then true else f.supported)
      else f.supported;
  typ_correct = if typ_of_header h.extra_typ then true else f.typ_correct;
}

unfoldable pub scan_headers : Flags → List Header → Flags
scan_headers f [] = f
scan_headers f (h ∷ hs) = scan_headers (scan_header f h) hs

abbrev pub expiry_is_bad : Option ℤ → Bool
expiry_is_bad none = true
expiry_is_bad (some t) = eqb_ℤ t (pos 0)

abbrev pub reason_if : Bool → JwtReason → List JwtReason
reason_if b r = if b then r ∷ [] else []

module _ (lib : JoseLib) where
  unfoldable pub reasons : Flags → Claims → List JwtReason
  reasons f c =
      reason_if (not f.supported) unsupported_algorithm
      ++ (reason_if (not f.typ_correct) bad_typ
          ++ (reason_if (not (is_ok (lib.from_string c.subject))) bad_subject
              ++ (reason_if (is_empty c.audience) no_audience
                  ++ reason_if (expiry_is_bad c.expiry) bad_expiry)))

  unfoldable pub is_svid : Token → Result String (Bool × List JwtReason)
  is_svid tok = elim tok.claims [
    | err e ↦ err e
    | ok c ↦
        let rs =
          reasons (scan_headers (record { supported = false; typ_correct = false }) tok.headers)
            c in
        ok (is_empty rs, rs)
  ]
