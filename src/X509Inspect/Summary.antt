-- ===== src/X509Inspect/Summary.antt =====
-- The converters of certificate.go: JSON, YAML and the summary.
pub mod Safety
use Prim.Native.String
use spiffecli.Prelude.{
  ℕ, suc, ◌+◌, Bool, true, false, not, Option, none, some, List, [], ◌∷◌, ◌++◌, map, Result, ok,
  err, ◌>>=◌, map_err, String, ◌=ₛ◌, Bytes, codes, is_empty, length, ltb, if◌then◌else◌,
}
use spiffecli.Prelude.Int.{ℤ, ◌-ℤ◌, ltb_ℤ}
use spiffecli.Cert.{Cert, X509Lib, Format}
use spiffecli.Style.{StyleLib, write_summary_field}
use spiffecli.Timeutil.{ZoneError, load_timezone}
use spiffecli.X509Inspect.Terminal.{sanitize_for_terminal}
use spiffecli.X509Inspect.Tree.{join}
use spiffecli.X509Inspect.Certificate.{
  EkuName, known, unknown, SpiffeInfo, CertificateInfo, cert_to_info,
}

-- The styles; `time.LoadLocation`, the local zone, the text
-- of a time in a zone and of the two largest units of a duration (durafmt); and `MarshalIndent`,
-- `Marshal` and `yaml.Marshal`.
pub record SummaryLib (Z : Type 0) : Type 0 where
  pub style : StyleLib
  pub load_location : Bytes → Result String Z
  pub local : Z
  pub time_in : Z → ℤ → List ℕ
  pub duration : ℤ → List ℕ
  pub marshal_indent : List CertificateInfo → Result String (List ℕ)
  pub marshal : List CertificateInfo → Result String (List ℕ)
  pub marshal_yaml : List CertificateInfo → Result String (List ℕ)

-- `X509InspectOutputOptions`
pub record OutputOptions : Type 0 where
  pub indent : Bool
  pub color : Bool
  pub time_zone : Bytes

abbrev pub concat : List (List ℕ) → List ℕ
concat [] = []
concat (l ∷ ls) = l ++ concat ls

-- Lines under a test
abbrev pub lines_if : Bool → List (List ℕ) → List (List ℕ)
lines_if true ls = ls
lines_if false ls = []

-- `strings.Join(…, ", ")`
abbrev pub commas : List (List ℕ) → List ℕ
commas = join (codes ", ")

module _ {Z : Type 0} (lib : SummaryLib Z) (x509 : X509Lib) (fmt : Format) where
  unfoldable pub convert_certs_to_json : List Cert → OutputOptions → Result String (List ℕ)
  convert_certs_to_json certs options =
      let infos = map (cert_to_info x509 fmt) certs in
      if options.indent then lib.marshal_indent infos else lib.marshal infos

  unfoldable pub convert_certs_to_yaml : List Cert → Result String (List ℕ)
  convert_certs_to_yaml certs = lib.marshal_yaml (map (cert_to_info x509 fmt) certs)

  -- A field whose value is sanitised
  abbrev pub clean_field : Bool → String → List ℕ → List ℕ
  clean_field color name value =
      write_summary_field lib.style color (codes name) (sanitize_for_terminal value)

  -- The text of an extended key usage
  unfoldable pub eku_text : EkuName → List ℕ
  eku_text (known name) = codes name
  eku_text (unknown n) = codes "unknown(" ++ fmt.decimal n ++ codes ")"

  unfoldable pub spiffe_lines : Bool → SpiffeInfo → List (List ℕ)
  spiffe_lines color info =
      if not (info.spiffe_id =ₛ "")
      then clean_field color "SPIFFE ID" (codes info.spiffe_id)
        ∷ clean_field color "Trust Domain" (codes info.trust_domain)
        ∷ lines_if (not (info.path =ₛ "")) (clean_field color "Path" (codes info.path) ∷ [])
      else if not (info.spiffe_id_error =ₛ "")
      then clean_field color "SPIFFE ID Error" (codes info.spiffe_id_error)
        ∷ (lines_if (not (info.spiffe_id_error_detail =ₛ ""))
              (clean_field color "SPIFFE ID Error Detail" (codes info.spiffe_id_error_detail) ∷ [])
            ++ lines_if (not (info.spiffe_id_library_error =ₛ "")) (
                clean_field color "SPIFFE ID Library Error" (codes info.spiffe_id_library_error)
                ∷ []))
      else []

  unfoldable pub expiry_line : Bool → Z → ℤ → Cert → List ℕ
  expiry_line color zone now cert =
      if ltb_ℤ cert.not_after now
      then clean_field color "Expired at" (lib.time_in zone cert.not_after)
      else codes "Expires in "
        ++ (sanitize_for_terminal (lib.duration (cert.not_after -ℤ now)) ++ 10 ∷ [])

  -- A line for texts, if there are any
  abbrev pub list_line : Bool → String → List (List ℕ) → List (List ℕ)
  list_line color name texts =
      lines_if (not (is_empty texts)) (clean_field color name (commas texts) ∷ [])

  -- The lines of one certificate, but for its heading
  unfoldable pub cert_lines : Bool → Z → ℤ → Cert → List (List ℕ)
  cert_lines color zone now cert =
      let info = cert_to_info x509 fmt cert in
      spiffe_lines color info.spiffe
      ++ (clean_field color "Subject" info.subject
          ∷ clean_field color "Issuer" info.issuer
          ∷ clean_field color "Serial" info.serial
          ∷ clean_field color "Key Algorithm" info.key_algorithm
          ∷ clean_field color "Signature Algorithm" (codes info.signature_algorithm)
          ∷ clean_field color "Not Before" (lib.time_in zone cert.not_before)
          ∷ expiry_line color zone now cert
          ∷ (list_line color "Key Usage" (map codes info.key_usage)
              ++ (list_line color "Extended Key Usage" (map eku_text info.extended_key_usage)
                  ++ (write_summary_field lib.style color (codes "Is CA")
                        (codes (if info.is_ca then "true" else "false"))
                      ∷ clean_field color "SHA-256 Fingerprint" info.sha256_fingerprint
                      ∷ (lines_if (not (is_empty info.subject_key_id))
                            (clean_field color "Subject Key ID" info.subject_key_id ∷ [])
                          ++ (lines_if (not (is_empty info.authority_key_id))
                                (clean_field color "Authority Key ID" info.authority_key_id ∷ [])
                              ++ (list_line color "DNS Names" (map codes info.dns_names)
                                  ++ (list_line color "IP Addresses" (map codes info.ip_addresses)
                                      ++ (list_line color "Email Addresses"
                                            (map codes info.email_addresses)
                                          ++ list_line color "URIs" (map codes info.uris))))))))))

  unfoldable pub heading : ℕ → ℕ → List (List ℕ)
  heading idx total = lines_if (ltb 1 total) (
      (codes "Certificate "
        ++ (fmt.decimal (suc idx) ++ (codes " of " ++ (fmt.decimal total ++ 10 ∷ []))))
      ∷ [])

  -- The loop from an index on; an empty line stands between certificates.
  unfoldable pub summary_lines : Bool → Z → ℤ → ℕ → ℕ → List Cert → List (List ℕ)
  summary_lines color zone now idx total [] = []
  summary_lines color zone now idx total (cert ∷ certs) =
      heading idx total
      ++ (cert_lines color zone now cert
          ++ (lines_if (not (is_empty certs)) ((10 ∷ []) ∷ [])
              ++ summary_lines color zone now (suc idx) total certs))

  unfoldable pub time_zone : Bytes → Result ZoneError Z
  time_zone name = if is_empty name then ok lib.local else load_timezone lib.load_location name

  -- `convertCertsToSummary` at the time `now`
  unfoldable pub convert_certs_to_summary :
      List Cert → OutputOptions → ℤ → Result ZoneError (List ℕ)
  convert_certs_to_summary certs options now = do
    zone ← time_zone options.time_zone
    ok (concat (summary_lines options.color zone now 0 (length certs) certs))
