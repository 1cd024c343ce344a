-- ===== src/X509Inspect/Certificate/Identity.antt =====
-- The SPIFFE identity of a certificate, by its number of valid SPIFFE URIs: what `certToInfo` and
-- `extractSpiffeID` make of it.
use mathlib.Core.List.{append-nil, append_assoc}
use spiffecli.Prelude.{
  ◌≡◌, ◌∙◌, sym, inl, inr, refl, Option, none, some, List, [], ◌∷◌, ◌++◌, ok, err, String, arith,
  Result-cases, ◌=ₛ◌, if◌then◌else◌,
}
use spiffecli.Cert.{Uri, SpiffeId, Cert, X509Lib}
use spiffecli.X509Inspect.Links.{extract_from, extract_spiffe_id}
use spiffecli.X509Inspect.Certificate.{
  Matches, SpiffeInfo, classify, match_uri, match_uris, spiffe_info,
}

module _ (lib : X509Lib) where
  -- The SPIFFE IDs among some URIs, in their order.
  abbrev pub valid_ids : List Uri → List SpiffeId
  valid_ids [] = []
  valid_ids (u ∷ us) =
      let rest = valid_ids us in elim (lib.from_uri u) [ ok sid ↦ sid ∷ rest | err e ↦ rest ]

  -- The error of the first URI of the scheme `spiffe` that is no SPIFFE ID.
  abbrev pub first_bad : List Uri → Option String
  first_bad [] = none
  first_bad (u ∷ us) =
      let rest = first_bad us in
      elim (lib.from_uri u) [
        | ok sid ↦ rest
        | err e ↦ if u.scheme =ₛ "spiffe" then some e else rest
      ]

  match_uris-spiffe_matches :
      (m : Matches) (uris : List Uri)
      → (match_uris lib m uris).spiffe_matches ≡ m.spiffe_matches ++ valid_ids uris
  unfolding match_uris match_uri
  match_uris-spiffe_matches m [] = sym (append-nil m.spiffe_matches)
  match_uris-spiffe_matches m (u ∷ us) = elim (Result-cases (lib.from_uri u)) [
    | inl (sid, e) ↦
        rw (e, valid_ids)
          (match_uris-spiffe_matches (match_uri lib m u) us
            ∙ rw (e, match_uri) (append_assoc m.spiffe_matches (sid ∷ []) (valid_ids us)))
    | inr (f, e) ↦ match_uris-spiffe_matches (match_uri lib m u) us ∙ ground (arith, e)
  ]

  extract_from-valid_ids :
      (uris : List Uri)
      → extract_from lib uris ≡ elim (valid_ids uris) [ [] ↦ "" | sid ∷ sids ↦ sid.text ]
  unfolding extract_from
  extract_from-valid_ids [] = refl
  extract_from-valid_ids (u ∷ us) = ground (arith, extract_from-valid_ids us)

  match_uris-first_parse_err :
      (m : Matches) (uris : List Uri)
      → (match_uris lib m uris).first_parse_err
        ≡ elim m.first_parse_err [ none ↦ first_bad uris | some e ↦ some e ]
  unfolding match_uris match_uri
  match_uris-first_parse_err m [] = ground arith
  match_uris-first_parse_err m (u ∷ us) =
      ground (arith, match_uris-first_parse_err (match_uri lib m u) us)

  abbrev start : Matches
  start = record { spiffe_matches = []; first_parse_err = none }

  -- The SPIFFE fields with an ID only, or with an error, its text and the detail of the library only.
  abbrev pub only_id : SpiffeId → SpiffeInfo
  only_id sid = record {
    spiffe_id = sid.text;
    trust_domain = sid.trust_domain;
    path = sid.path;
    spiffe_id_error = "";
    spiffe_id_error_detail = "";
    spiffe_id_library_error = "";
  }

  abbrev pub only_error : String → String → String → SpiffeInfo
  only_error code detail library_error = record {
    spiffe_id = "";
    trust_domain = "";
    path = "";
    spiffe_id_error = code;
    spiffe_id_error_detail = detail;
    spiffe_id_library_error = library_error;
  }

  -- What the SPIFFE fields and the SPIFFE ID in a chain or tree say of a certificate: with one
  -- valid SPIFFE URI both give its ID, its trust domain and path included, and there is no error;
  -- with several the fields give only the error MULTIPLE_SPIFFE_IDS and its text, and the chain or
  -- tree the first ID; with none both give no ID, trust domain or path, and the error is
  -- INVALID_SPIFFE_URI with the library's error for the first invalid URI of the scheme spiffe, if
  -- there is one, else empty.
  pub spiffe_info_correct :
      (cert : Cert)
      → ((sid : SpiffeId)
          → valid_ids cert.uris ≡ sid ∷ []
          → (spiffe_info lib cert ≡ only_id sid) × (extract_spiffe_id lib cert ≡ sid.text))
        × ((a b : SpiffeId) (more : List SpiffeId)
            → valid_ids cert.uris ≡ a ∷ b ∷ more
            → (spiffe_info lib cert
                ≡ only_error "MULTIPLE_SPIFFE_IDS" "certificate contains multiple SPIFFE IDs" "")
              × (extract_spiffe_id lib cert ≡ a.text))
        × (valid_ids cert.uris ≡ []
            → (spiffe_info lib cert ≡ elim (first_bad cert.uris) [
              | none ↦ only_error "" "" ""
              | some e ↦ only_error "INVALID_SPIFFE_URI" "URI is not a valid SPIFFE ID" e
            ])
              × (extract_spiffe_id lib cert ≡ ""))
  unfolding spiffe_info classify extract_spiffe_id
  spiffe_info_correct cert =
      let found = match_uris-spiffe_matches start cert.uris in
      let bad = match_uris-first_parse_err start cert.uris in
      let shown = extract_from-valid_ids cert.uris in
      (
        λ sid e.
            let m : (match_uris lib start cert.uris).spiffe_matches ≡ sid ∷ [] = found ∙ e in
            (rw (m, spiffe_info, classify) refl, rw e at shown),
        λ a b more e.
            let m : (match_uris lib start cert.uris).spiffe_matches ≡ a ∷ b ∷ more = found ∙ e in
            (rw (m, spiffe_info, classify) refl, rw e at shown),
        λ e.
            let m : (match_uris lib start cert.uris).spiffe_matches ≡ [] = found ∙ e in
            (rw (m, bad, spiffe_info, classify) refl, rw e at shown),
      )
