-- ===== src/Pemutil/Certificates.antt =====
-- Certificates that are encoded and parsed back.
use spiffecli.Prelude.{
  ℕ, suc, ◌≤◌, ◌==◌, ltb, not, ◌&&◌, false, Bool-cases, subst, ◌∙◌, >>=-eq-ok, ◌≡◌, refl, sym, none,
  some, List, [], ◌∷◌, ◌++◌, inl, inr, Result, ok, Bytes, length, All, traverse, arith, is_empty,
}
use spiffecli.Cert.{Cert}
use spiffecli.Pemutil.{
  PemBlock, Block, PemError, PemLib, cert_object, certificate_type, certificate_block, finish,
  parse_object, parse_one, parse_certificates, certs_from_blocks, cert_from_object,
  encode_certificates, parse_blocks,
}
use spiffecli.Pemutil.Blocks.{
  Decodes, done, more, IsShrinking, parse_all, parse_blocks-Decodes, parse_blocks_of,
}

-- What is documented of encoding/pem: a certificate's block that was encoded is the first one to be
-- decoded, and what follows is the rest; there is no block in an empty text; and a decoded block is
-- no part of what follows it.
pub record IsDocumented (lib : PemLib) : Type 0 where
  pub shrinking : IsShrinking lib
  pub encoded :
      (der rest : Bytes)
      → lib.decode (lib.encode (record { kind = certificate_type; bytes = der }) ++ rest)
        ≡ some (record { kind = certificate_type; bytes = der }, rest)
  pub empty : lib.decode [] ≡ none

abbrev pub cert_blocks : List Cert → List Block
cert_blocks [] = []
cert_blocks (c ∷ cs) = record { kind = certificate_type; object = cert_object c } ∷ cert_blocks cs

abbrev pub pem_blocks : List Cert → List PemBlock
pem_blocks [] = []
pem_blocks (c ∷ cs) = certificate_block c ∷ pem_blocks cs

-- The raw bytes of a certificate parse to it.
abbrev pub IsParsed : PemLib → Cert → Type 0
IsParsed lib c = lib.parse_certificate c.raw ≡ ok c

module _ (lib : PemLib) (doc : IsDocumented lib) where
  encode_certificates-Decodes :
      (cs : List Cert) → Decodes lib (encode_certificates lib cs) (pem_blocks cs)
  unfolding encode_certificates
  encode_certificates-Decodes [] = done [] doc.empty
  encode_certificates-Decodes (c ∷ cs) =
      more _ (encode_certificates lib cs) (certificate_block c) (pem_blocks cs)
        (doc.encoded c.raw (encode_certificates lib cs)) (encode_certificates-Decodes cs)

  short : (bytes : Bytes) (ps : List PemBlock) → Decodes lib bytes ps → length ps ≤ length bytes
  short bytes [] (done b e) = omega arith
  short bytes ps' (more b rest p ps e d) =
      omega (arith, short rest ps d, doc.shrinking bytes rest p e)

parse_one-cert :
    (lib : PemLib) (c : Cert) (number : ℕ)
    → IsParsed lib c
    → parse_one lib (certificate_type ∷ []) number (certificate_block c)
      ≡ ok (record { kind = certificate_type; object = cert_object c })
unfolding parse_one parse_object
parse_one-cert lib c number h = rw (h, parse_object) refl

parse_all-certs :
    (lib : PemLib) (cs : List Cert) (number : ℕ)
    → All (IsParsed lib) cs
    → parse_all lib (certificate_type ∷ []) number (pem_blocks cs) ≡ ok (cert_blocks cs)
unfolding parse_all
parse_all-certs lib [] number h = refl
parse_all-certs lib (c ∷ cs) number (p, h) =
    rw (parse_one-cert lib c number p, parse_all-certs lib cs (suc number) h) refl

certs_from_blocks-cert_blocks : (cs : List Cert) → certs_from_blocks (cert_blocks cs) ≡ ok cs
unfolding certs_from_blocks cert_from_object
certs_from_blocks-cert_blocks [] = refl
certs_from_blocks-cert_blocks (c ∷ cs) = rw (certs_from_blocks-cert_blocks cs) refl

-- Certificates whose raw bytes parse to them, at least one, come back in order when they are encoded
-- by `EncodeCertificates` and parsed by `ParseCertificates`.
pub parse-encode_certificates :
    (lib : PemLib) (doc : IsDocumented lib) (c : Cert) (cs : List Cert)
    → All (IsParsed lib) (c ∷ cs)
    → parse_certificates lib (encode_certificates lib (c ∷ cs)) ≡ ok (c ∷ cs)
unfolding parse_certificates finish
parse-encode_certificates lib doc c cs h =
    let d = encode_certificates-Decodes lib doc (c ∷ cs) in
    rw
      (
        parse_blocks_of lib (encode_certificates lib (c ∷ cs)) (pem_blocks (c ∷ cs)) 0
            (certificate_type ∷ []) d (short lib doc _ _ d),
        parse_all-certs lib (c ∷ cs) 1 h,
      )
      (certs_from_blocks-cert_blocks (c ∷ cs))

finish-nonempty :
    (expected : ℕ) (blocks bs : List Block)
    → finish expected blocks ≡ ok bs
    → (blocks ≡ bs) × (is_empty bs ≡ false)
unfolding finish
finish-nonempty expected [] bs h = cc
finish-nonempty expected (b ∷ blocks) bs h =
    elim (Bool-cases (ltb 0 expected && not (length (b ∷ blocks) == expected))) [
      | inl wrong ↦ cc (rw wrong at h)
      | inr right ↦
          let made : ◌≡◌ {A = Result PemError (List Block)} (ok (b ∷ blocks)) (ok bs) =
            rw right at h in
          let same : b ∷ blocks ≡ bs = ground (arith, made) in
          (same, subst (λ l. is_empty l ≡ false) same refl)
    ]

traverse-nonempty :
    {A B E : Type 0} (f : A → Result E B) (xs : List A) (ys : List B)
    → is_empty xs ≡ false
    → traverse f xs ≡ ok ys
    → is_empty ys ≡ false
traverse-nonempty f [] ys n h = cc
traverse-nonempty {E = E} f (x ∷ xs) ys n h =
    let (y, _, h1) = >>=-eq-ok (f x) _ h in
    let (zs, _, h2) = >>=-eq-ok (traverse f xs) _ h1 in
    let made : ◌≡◌ {A = Result E (List _)} (ok (y ∷ zs)) (ok ys) = h2 in
    let same : y ∷ zs ≡ ys = ground (arith, made) in subst (λ l. is_empty l ≡ false) same refl

-- `ParseCertificates`, and so `LoadCertificates`, never succeeds without a certificate: the first one,
-- which the inspector takes without a test, exists.
pub parse_certificates-nonempty :
    (lib : PemLib) (shrinking : IsShrinking lib) (bytes : Bytes) (certs : List Cert)
    → parse_certificates lib bytes ≡ ok certs
    → is_empty certs ≡ false
unfolding parse_certificates certs_from_blocks
parse_certificates-nonempty lib shrinking bytes certs h =
    let (blocks, parsed, h1) = >>=-eq-ok (parse_blocks lib bytes 0 (certificate_type ∷ [])) _ h in
    let (ps, _, e) = parse_blocks-Decodes lib shrinking bytes 0 (certificate_type ∷ []) in
    let (bs, _, finished) =
      >>=-eq-ok (parse_all lib (certificate_type ∷ []) 1 ps) _ (sym e ∙ parsed) in
    let (_, full) = finish-nonempty 0 bs blocks finished in
    traverse-nonempty (λ b. cert_from_object b.object) blocks certs full h1
