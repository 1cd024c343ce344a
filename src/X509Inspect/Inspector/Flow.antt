-- ===== src/X509Inspect/Inspector/Flow.antt =====
-- What `Inspect` answers, and what it never does.
use spiffecli.Prelude.{
  ℕ, ◌≡◌, ◌≢◌, ◌∙◌, refl, sym, ap, subst, inl, inr, Bool, true, false, not, ◌&&◌, Bool-cases, List,
  [], ◌∷◌, Result, ok, err, ◌>>=◌, ◌>>◌, >>=-eq-ok, guard, guard-eq-ok, map_err, map_err-eq-ok,
  String, ◌=ₛ◌, is_empty, if◌then◌else◌,
}
use spiffecli.Cert.{Cert}
use spiffecli.Pemutil.{
  PemError, no_blocks, out_of_fuel, reading, parsing, block_count, block_type, block_parse,
  object_type, parse_certificates,
}
use spiffecli.Pemutil.Blocks.{IsShrinking}
use spiffecli.Pemutil.Certificates.{parse_certificates-nonempty}
use spiffecli.X509Inspect.Svid.{check_is_svid}
use spiffecli.X509Inspect.Inspector.{
  X509Inspector, InspectError, no_filename, index_panic, not_svid, InspectLib, is_chain_or_tree,
  file_error, Converted, Loaded, answered, certificates, load_certificates, check_first,
  tree_fields, bundle_certs, convert, colorize, load, prepare, finish, respond, inspect,
}

-- A result that is not the panic of `certs[0]`.
abbrev pub IsSafe {ℓ} : {A : Type ℓ} → Result InspectError A → Type ℓ
IsSafe r = r ≢ err index_panic

module _ {A B : Type 0} where
  bind-IsSafe :
      (step : Result InspectError A) (next : A → Result InspectError B)
      → IsSafe step
      → ((a : A) → step ≡ ok a → IsSafe (next a))
      → IsSafe (step >>= next)
  bind-IsSafe (err e) next h k p = h (cc (p))
  bind-IsSafe (ok a) next h k p = k a refl p

map_err-IsSafe :
    {E A : Type 0} (f : E → InspectError) (r : Result E A)
    → ((e : E) → f e ≢ index_panic)
    → IsSafe (map_err f r)
map_err-IsSafe f (ok a) h p = cc
map_err-IsSafe f (err e) h p = h e cc

guard-IsSafe : (b : Bool) (e : InspectError) → e ≢ index_panic → IsSafe (guard b e)
guard-IsSafe true e h p = cc
guard-IsSafe false e h p = h cc

if-IsSafe :
    {A : Type 0} (b : Bool) (r s : Result InspectError A)
    → IsSafe r
    → IsSafe s
    → IsSafe (if b then r else s)
if-IsSafe true r s h k = h
if-IsSafe false r s h k = k

file_error-safe : (file : String) (e : PemError) → file_error file e ≢ index_panic
file_error-safe file no_blocks p = cc
file_error-safe file out_of_fuel p = cc
file_error-safe file (reading e) p = cc
file_error-safe file (parsing e) p = cc
file_error-safe file (block_count n m) p = cc
file_error-safe file (block_type ts t) p = cc
file_error-safe file (block_parse k n e) p = cc
file_error-safe file (object_type o) p = cc

module _ {Z : Type 0} (lib : InspectLib Z) where
  load_certificates-IsSafe : (file : String) → IsSafe (load_certificates lib file)
  unfolding load_certificates
  load_certificates-IsSafe file = map_err-IsSafe (file_error file) _ (file_error-safe file)

  load_certificates-nonempty :
      (shrinking : IsShrinking lib.pem) (file : String) (certs : List Cert)
      → load_certificates lib file ≡ ok certs
      → is_empty certs ≡ false
  unfolding load_certificates
  load_certificates-nonempty shrinking file certs h =
      let (bytes, _, parsed) =
        >>=-eq-ok (map_err reading (lib.pem.read_file file)) (parse_certificates lib.pem)
          (map_err-eq-ok (file_error file) _ certs h) in
      parse_certificates-nonempty lib.pem shrinking bytes certs parsed

  bundle_certs-IsSafe : (i : X509Inspector) → IsSafe (bundle_certs lib i)
  unfolding bundle_certs
  bundle_certs-IsSafe i =
      if-IsSafe (not (i.bundle =ₛ "") && is_chain_or_tree i.output_format) _ _
        (load_certificates-IsSafe i.bundle) (λ p. cc)

  abbrev IsSafeConverted : Result InspectError Converted → Type 0
  IsSafeConverted r = IsSafe r × ((c : Converted) → r ≡ ok c → IsSafe c.output)

  made : (c : Converted) → IsSafe c.output → IsSafeConverted (ok c)
  made c h = (λ p. cc, λ d e. subst (λ x. IsSafe x.output) (same c d e) h)
    where
      same : (x y : Converted) → ◌≡◌ {A = Result InspectError Converted} (ok x) (ok y) → x ≡ y
      same x y q = cc

  if-IsSafeConverted :
      (b : Bool) (r s : Result InspectError Converted)
      → IsSafeConverted r
      → IsSafeConverted s
      → IsSafeConverted (if b then r else s)
  if-IsSafeConverted true r s h k = h
  if-IsSafeConverted false r s h k = k

  convert-IsSafe :
      (i : X509Inspector) (certs bundle : List Cert) (fields : List String)
      → IsSafeConverted (convert lib i certs bundle fields)
  unfolding convert
  convert-IsSafe i certs bundle fields =
      if-IsSafeConverted (i.output_format =ₛ "json") _ _ (made _ (map_err-IsSafe _ _ (λ e p. cc))) (
        if-IsSafeConverted (i.output_format =ₛ "yaml") _ _ (made _ (map_err-IsSafe _ _ (λ e p. cc)))
          (if-IsSafeConverted (i.output_format =ₛ "summary") _ _
            (made _ (map_err-IsSafe _ _ (λ e p. cc)))
            (if-IsSafeConverted (i.output_format =ₛ "chain") _ _
              (made _ (map_err-IsSafe _ _ (λ e p. cc)))
              (if-IsSafeConverted (i.output_format =ₛ "tree") _ _
                (made _ (map_err-IsSafe _ _ (λ e p. cc))) (λ p. cc, λ c e. cc)))))

  check_first-IsSafe : (certs : List Cert) → is_empty certs ≡ false → IsSafe (check_first lib certs)
  unfolding check_first
  check_first-IsSafe [] h = cc
  check_first-IsSafe (c ∷ cs) h = guard-IsSafe (check_is_svid lib.x509 c).0 _ (λ p. cc)

  load-IsSafe : (shrinking : IsShrinking lib.pem) (i : X509Inspector) → IsSafe (load lib i)
  unfolding load
  load-IsSafe shrinking i =
      bind-IsSafe (guard (not (i.filename =ₛ "")) no_filename) _
        (guard-IsSafe (not (i.filename =ₛ "")) no_filename (λ p. cc))
        (λ u set.
          bind-IsSafe (load_certificates lib i.filename) _ (load_certificates-IsSafe i.filename)
            (λ certs loaded.
              if-IsSafe i.is_svid _ _
                (bind-IsSafe (check_first lib certs) _
                  (check_first-IsSafe certs
                    (load_certificates-nonempty shrinking i.filename certs loaded))
                  (λ v checked p. cc))
                (λ p. cc)))

  prepare-IsSafe : (i : X509Inspector) (certs : List Cert) → IsSafeConverted (prepare lib i certs)
  unfolding prepare
  prepare-IsSafe i certs = (
    bind-IsSafe (bundle_certs lib i) _ (bundle_certs-IsSafe i)
        (λ bundle loaded. (convert-IsSafe i certs bundle (tree_fields lib i)).0),
    λ c h.
        let (bundle, _, converted) = >>=-eq-ok (bundle_certs lib i) _ h in
        (convert-IsSafe i certs bundle (tree_fields lib i)).1 c converted,
  )

  colorize-IsSafe :
      (color : Bool) (label lexer : String) (output : List ℕ)
      → IsSafe (colorize lib color label lexer output)
  unfolding colorize
  colorize-IsSafe color label lexer output =
      if-IsSafe (color && not (lexer =ₛ "text")) _ _ (map_err-IsSafe _ _ (λ e p. cc)) (λ p. cc)

  finish-IsSafe :
      (i : X509Inspector) (c : Result InspectError Converted)
      → IsSafeConverted c
      → IsSafe (finish lib i c).1
  unfolding finish
  finish-IsSafe i (err e) (h, k) = λ p. h (cc (p))
  finish-IsSafe i (ok c) (h, k) =
      bind-IsSafe c.output _ (k c refl)
        (λ o made. colorize-IsSafe i.output_options.color c.label c.lexer o)

  respond-IsSafe :
      (i : X509Inspector) (l : Result InspectError Loaded) → IsSafe l → IsSafe (respond lib i l).1
  unfolding respond
  respond-IsSafe i (err e) h = λ p. h (cc (p))
  respond-IsSafe i (ok answered) h = λ p. cc
  respond-IsSafe i (ok (certificates certs)) h =
      finish-IsSafe i (prepare lib i certs) (prepare-IsSafe i certs)

  -- A file whose first certificate is an X.509-SVID.
  pub record IsSvidFile (file : String) : Type 0 where
    pub first : Cert
    pub others : List Cert
    pub loaded : load_certificates lib file ≡ ok (first ∷ others)
    pub accepted : (check_is_svid lib.x509 first).0 ≡ true

  check_first-accepted :
      (file : String) (certs : List Cert) (u : Unit {0})
      → load_certificates lib file ≡ ok certs
      → check_first lib certs ≡ ok u
      → IsSvidFile file
  unfolding check_first
  check_first-accepted file [] u loaded h = cc
  check_first-accepted file (c ∷ cs) u loaded h = record {
    first = c;
    others = cs;
    loaded = loaded;
    accepted = guard-eq-ok (check_is_svid lib.x509 c).0 (not_svid (check_is_svid lib.x509 c).1) u h;
  }

  load-IsSvidFile :
      (i : X509Inspector) (l : Loaded)
      → i.is_svid ≡ true
      → load lib i ≡ ok l
      → (l ≡ answered) × IsSvidFile i.filename
  unfolding load
  load-IsSvidFile i l svid h =
      let (u, _, h1) = >>=-eq-ok (guard (not (i.filename =ₛ "")) no_filename) _ h in
      let (certs, loaded, h2) = >>=-eq-ok (load_certificates lib i.filename) _ h1 in
      let h3 : (check_first lib certs >> ok answered) ≡ ok l = rw svid at h2 in
      let (v, checked, h4) = >>=-eq-ok (check_first lib certs) _ h3 in
      let same : ◌≡◌ {A = Result InspectError Loaded} (ok answered) (ok l) = h4 in
      (cc, check_first-accepted i.filename certs v loaded checked)

  respond-IsSvidFile :
      (i : X509Inspector) (l : Result InspectError Loaded) (out : List ℕ)
      → i.is_svid ≡ true
      → load lib i ≡ l
      → (respond lib i l).1 ≡ ok out
      → (out ≡ []) × IsSvidFile i.filename
  unfolding respond
  respond-IsSvidFile i (err e) out svid loaded h = cc
  respond-IsSvidFile i (ok answered) out svid loaded h =
      let (_, file) = load-IsSvidFile i answered svid loaded in
      let same : ◌≡◌ {A = Result InspectError (List ℕ)} (ok []) (ok out) = h in (cc, file)
  respond-IsSvidFile i (ok (certificates certs)) out svid loaded h =
      let (e, file) = load-IsSvidFile i (certificates certs) svid loaded in cc

  bundle_certs-ignored :
      (i : X509Inspector) → is_chain_or_tree i.output_format ≡ false → bundle_certs lib i ≡ ok []
  unfolding bundle_certs
  bundle_certs-ignored i h = elim (Bool-cases (i.bundle =ₛ "")) [
    | inl unset ↦ rw (unset, bundle_certs) refl
    | inr set ↦ rw (set, h, bundle_certs) refl
  ]

  prepare-ignored :
      (i : X509Inspector) (certs : List Cert)
      → is_chain_or_tree i.output_format ≡ false
      → prepare lib i certs ≡ convert lib i certs [] (tree_fields lib i)
  unfolding prepare
  prepare-ignored i certs h = rw (bundle_certs-ignored i h, prepare) refl

  prepare-bundle :
      (i : X509Inspector) (other : String) (certs : List Cert)
      → is_chain_or_tree i.output_format ≡ false
      → prepare lib (record i { bundle = other }) certs ≡ prepare lib i certs
  unfolding convert tree_fields
  prepare-bundle i other certs h =
      prepare-ignored (record i { bundle = other }) certs h ∙ sym (prepare-ignored i certs h)

  finish-bundle :
      (i : X509Inspector) (other : String) (c : Result InspectError Converted)
      → (finish lib (record i { bundle = other }) c).1 ≡ (finish lib i c).1
  unfolding finish
  finish-bundle i other (err e) = refl
  finish-bundle i other (ok c) = refl

  respond-bundle :
      (i : X509Inspector) (other : String) (l : Result InspectError Loaded)
      → is_chain_or_tree i.output_format ≡ false
      → (respond lib (record i { bundle = other }) l).1 ≡ (respond lib i l).1
  unfolding respond
  respond-bundle i other (err e) h = refl
  respond-bundle i other (ok answered) h = refl
  respond-bundle i other (ok (certificates certs)) h =
      finish-bundle i other (prepare lib (record i { bundle = other }) certs)
      ∙ ap (λ c. (finish lib i c).1) (prepare-bundle i other certs h)

  -- `Inspect` of a file never panics on `certs[0]`, if decoding a PEM block shortens the text; with
  -- the flag for SVIDs it succeeds only with an empty text, for a file whose first certificate the check
  -- of X.509-SVIDs accepts; and but for chains and trees its text or error does not depend on the bundle,
  -- which is not even read.
  pub inspect_correct :
      (shrinking : IsShrinking lib.pem) (i : X509Inspector)
      → IsSafe (inspect lib i).1
        × ((out : List ℕ)
            → i.is_svid ≡ true
            → (inspect lib i).1 ≡ ok out
            → (out ≡ []) × IsSvidFile i.filename)
        × ((other : String)
            → is_chain_or_tree i.output_format ≡ false
            → (inspect lib (record i { bundle = other })).1 ≡ (inspect lib i).1)
  unfolding inspect load
  inspect_correct shrinking i = (
    respond-IsSafe i (load lib i) (load-IsSafe shrinking i),
    λ out svid h. respond-IsSvidFile i (load lib i) out svid refl h,
    λ other h. respond-bundle i other (load lib i) h,
  )
