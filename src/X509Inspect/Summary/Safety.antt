-- ===== src/X509Inspect/Summary/Safety.antt =====
-- A summary without colours holds no control character but its line ends.
use spiffecli.Prelude.{
  ℕ, suc, ◌==◌, leb, ◌≡◌, refl, inl, inr, Bool, true, false, not, ◌&&◌, ◌||◌, Bool-cases, List, [],
  ◌∷◌, ◌++◌, Result, ok, >>=-eq-ok, String, ◌=ₛ◌, Bytes, codes, is_empty, length, ltb,
  if◌then◌else◌, All, All-append, all, arith, subst,
}
use spiffecli.Prelude.Int.{ℤ, ltb_ℤ}
use spiffecli.Cert.{Cert, X509Lib, Format}
use spiffecli.Style.{get_summary_field, write_summary_field}
use spiffecli.Timeutil.{ZoneError}
use spiffecli.X509Inspect.Terminal.{sanitize_for_terminal, IsPlain, sanitize_for_terminal-IsPlain}
use spiffecli.X509Inspect.Certificate.{SpiffeInfo, cert_to_info}
use spiffecli.X509Inspect.Summary.{
  SummaryLib, concat, lines_if, clean_field, spiffe_lines, expiry_line, cert_lines, heading,
  summary_lines, time_zone, convert_certs_to_summary,
}

abbrev is_plain : ℕ → Bool
is_plain c = (leb 0x20 c && (not (c == 0x7F) && not (leb 0x80 c && leb c 0x9F))) || c == 10

is_plain-IsPlain : (c : ℕ) → is_plain c ≡ true → IsPlain c
is_plain-IsPlain c h = ground (arith, h)

-- The predicates are records, so that the lists they are about can be read off them.
record Plain (s : List ℕ) : Type 0 where
  chars : All IsPlain s

record Lines (ls : List (List ℕ)) : Type 0 where
  each : All Plain ls

-- Texts of the program are tested by computation.
chars_of_test : (s : List ℕ) → all is_plain s ≡ true → All IsPlain s
chars_of_test [] h = tt
chars_of_test (c ∷ s) h = elim (Bool-cases (is_plain c)) [
  | inl p ↦ (is_plain-IsPlain c p, chars_of_test s (rw p at h))
  | inr n ↦ cc (rw n at h)
]

plain_text : (s : List ℕ) → all is_plain s ≡ true → Plain s
plain_text s h = record { chars = chars_of_test s h }

infixr 66 ◌+p◌ ◌+l◌
infixr 67 ◌∷l◌
◌+p◌ : {s t : List ℕ} → Plain s → Plain t → Plain (s ++ t)
◌+p◌ {s} {t} p q = record { chars = All-append IsPlain s t p.chars q.chars }

Lines-nil : Lines []
Lines-nil = record { each = tt }

◌∷l◌ : {l : List ℕ} {ls : List (List ℕ)} → Plain l → Lines ls → Lines (l ∷ ls)
p ∷l h = record { each = (p, h.each) }

◌+l◌ : {ls ms : List (List ℕ)} → Lines ls → Lines ms → Lines (ls ++ ms)
◌+l◌ {ls} {ms} h k = record { each = All-append Plain ls ms h.each k.each }

cleaned : (s : List ℕ) → Plain (sanitize_for_terminal s)
cleaned s = record { chars = sanitize_for_terminal-IsPlain s }

concat-Plain : (ls : List (List ℕ)) → All Plain ls → All IsPlain (concat ls)
concat-Plain [] h = tt
concat-Plain (l ∷ ls) (p, h) = All-append IsPlain l (concat ls) p.chars (concat-Plain ls h)

lines_if-Lines : (b : Bool) (ls : List (List ℕ)) → Lines ls → Lines (lines_if b ls)
lines_if-Lines true ls h = h
lines_if-Lines false ls h = Lines-nil

if-Lines : (b : Bool) (ls ms : List (List ℕ)) → Lines ls → Lines ms → Lines (if b then ls else ms)
if-Lines true ls ms h k = h
if-Lines false ls ms h k = k

module _ {Z : Type 0} (lib : SummaryLib Z) (x509 : X509Lib) (fmt : Format)
    (digits : (n : ℕ) → All IsPlain (fmt.decimal n)) where
  shown : (n : ℕ) → Plain (fmt.decimal n)
  shown n = record { chars = digits n }

  line_end : Plain (10 ∷ [])
  line_end = plain_text (10 ∷ []) refl

  write_field :
      (name value : List ℕ)
      → Plain name
      → Plain value
      → Plain (write_summary_field lib.style false name value)
  unfolding write_summary_field get_summary_field
  write_field name value n v = (n +p plain_text (codes ": ") refl +p v) +p line_end

  clean :
      (name : String) (value : List ℕ)
      → all is_plain (codes name) ≡ true
      → Plain (clean_field lib x509 fmt false name value)
  clean name value h =
      write_field (codes name) (sanitize_for_terminal value) (plain_text (codes name) h)
        (cleaned value)

  clean_if :
      (b : Bool) (name : String) (value : List ℕ)
      → all is_plain (codes name) ≡ true
      → Lines (lines_if b (clean_field lib x509 fmt false name value ∷ []))
  clean_if b name value h = lines_if-Lines b _ (clean name value h ∷l Lines-nil)

  spiffe_lines-Lines : (info : SpiffeInfo) → Lines (spiffe_lines lib x509 fmt false info)
  unfolding spiffe_lines
  spiffe_lines-Lines info =
      if-Lines (not (info.spiffe_id =ₛ "")) _ _
        (clean "SPIFFE ID" _ refl ∷l clean "Trust Domain" _ refl ∷l clean_if _ "Path" _ refl)
        (if-Lines (not (info.spiffe_id_error =ₛ "")) _ _
          (clean "SPIFFE ID Error" _ refl
            ∷l (clean_if _ "SPIFFE ID Error Detail" _ refl
                +l clean_if _ "SPIFFE ID Library Error" _ refl))
          Lines-nil)

  expiry_line-Plain :
      (zone : Z) (now : ℤ) (cert : Cert) → Plain (expiry_line lib x509 fmt false zone now cert)
  unfolding expiry_line
  expiry_line-Plain zone now cert = elim (Bool-cases (ltb_ℤ cert.not_after now)) [
    | inl past ↦ rw (past, expiry_line) (clean "Expired at" _ refl)
    | inr future ↦
        rw (future, expiry_line)
          (plain_text (codes "Expires in ") refl +p cleaned (lib.duration _) +p line_end)
  ]

  bool_text : (b : Bool) → Plain (codes (if b then "true" else "false"))
  bool_text true = plain_text (codes "true") refl
  bool_text false = plain_text (codes "false") refl

  cert_lines-Lines :
      (zone : Z) (now : ℤ) (cert : Cert) → Lines (cert_lines lib x509 fmt false zone now cert)
  unfolding cert_lines
  cert_lines-Lines zone now cert =
      let info = cert_to_info x509 fmt cert in
      spiffe_lines-Lines info.spiffe
      +l (clean "Subject" _ refl
          ∷l clean "Issuer" _ refl
          ∷l clean "Serial" _ refl
          ∷l clean "Key Algorithm" _ refl
          ∷l clean "Signature Algorithm" _ refl
          ∷l clean "Not Before" _ refl
          ∷l expiry_line-Plain zone now cert
          ∷l (clean_if _ "Key Usage" _ refl
              +l (clean_if _ "Extended Key Usage" _ refl
                  +l (write_field (codes "Is CA") _ (plain_text (codes "Is CA") refl)
                        (bool_text info.is_ca)
                      ∷l clean "SHA-256 Fingerprint" _ refl
                      ∷l (clean_if _ "Subject Key ID" _ refl
                          +l (clean_if _ "Authority Key ID" _ refl
                              +l (clean_if _ "DNS Names" _ refl
                                  +l (clean_if _ "IP Addresses" _ refl
                                      +l (clean_if _ "Email Addresses" _ refl
                                          +l clean_if _ "URIs" _ refl)))))))))

  heading-Lines : (idx total : ℕ) → Lines (heading lib x509 fmt idx total)
  unfolding heading
  heading-Lines idx total = lines_if-Lines (ltb 1 total) _ (
      (plain_text (codes "Certificate ") refl
        +p (shown (suc idx) +p (plain_text (codes " of ") refl +p (shown total +p line_end))))
      ∷l Lines-nil)

  summary_lines-Lines :
      (zone : Z) (now : ℤ) (idx total : ℕ) (certs : List Cert)
      → Lines (summary_lines lib x509 fmt false zone now idx total certs)
  unfolding summary_lines
  summary_lines-Lines zone now idx total [] = Lines-nil
  summary_lines-Lines zone now idx total (cert ∷ certs) =
      heading-Lines idx total
      +l (cert_lines-Lines zone now cert
          +l (lines_if-Lines (not (is_empty certs)) _ (line_end ∷l Lines-nil)
              +l summary_lines-Lines zone now (suc idx) total certs))

  -- The summary of any certificates, without colours, holds no control character but line ends,
  -- whatever names, SPIFFE IDs, errors, times and extensions the certificates hold, if decimal numbers
  -- have none: a certificate cannot drive the terminal.
  pub convert_certs_to_summary-IsPlain :
      (certs : List Cert) (indent : Bool) (zone_name : Bytes) (now : ℤ) (text : List ℕ)
      → convert_certs_to_summary lib x509 fmt certs
          (record { indent = indent; color = false; time_zone = zone_name })
          now
        ≡ ok text
      → All IsPlain text
  unfolding convert_certs_to_summary
  convert_certs_to_summary-IsPlain certs indent zone_name now text h =
      let (zone, _, made) = >>=-eq-ok (time_zone lib x509 fmt zone_name) _ h in
      let ls = summary_lines lib x509 fmt false zone now 0 (length certs) certs in
      let same : ◌≡◌ {A = Result ZoneError (List ℕ)} (ok (concat ls)) (ok text) = made in
      let eq : concat ls ≡ text = cc in
      subst (All IsPlain) eq
        (concat-Plain ls (summary_lines-Lines zone now 0 (length certs) certs).each)
