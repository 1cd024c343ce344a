-- ===== src/WlApi/Workload/Stream.antt =====
-- The responses of the X.509-SVID stream.
use spiffecli.Prelude.{
  ℕ, true, ◌≡◌, ◌⊎◌, inl, inr, refl, sym, subst, List, [], ◌∷◌, some, Result, Result-cases, ok,
  >>=-eq-ok, map_err, map_err-eq-ok, String, In, All, arith,
}
use spiffecli.Cert.{Uri, Cert, X509Lib}
use spiffecli.X509Authority.{Signer, CaLib}
use spiffecli.X509Authority.Mint.{IsDocumented}
use spiffecli.WlApi.Config.{WorkloadConfig, TrustDomainConfig}
use spiffecli.WlApi.TrustDomain.{td_mint_x509_svid, der_from_certificates}
use spiffecli.WlApi.TrustDomain.Minting.{IsIssued, IsSignedBy, Reachable-IsIssued}
use spiffecli.WlApi.TrustDomain.Rotation.{Reachable}
use spiffecli.WlApi.Workload.{
  WorkloadError, generating, marshaling, minting, Wake, rotate, canceled, stream_failed, Turn,
  X509Response, x509_response, fetch_x509_svid,
}

-- A response to the workload: an SVID for its configured ID and the key of the turn, as the trust
-- domain issued it at that time.
pub record IsResponse (lib : X509Lib) (ca : CaLib) (doc : IsDocumented lib ca) (td_uri : Uri)
    (config : WorkloadConfig) (t : Turn) (r : X509Response) : Type 0 where
  pub key : Signer
  pub generated : t.generated ≡ ok key
  pub cert : Cert
  pub bundle : List Cert
  pub svid : r.x509_svid ≡ cert.raw
  pub key_bytes : t.marshal key ≡ ok r.x509_svid_key
  pub named : r.spiffe_id ≡ config.id.text
  pub trusted : r.bundle ≡ der_from_certificates bundle
  pub issued :
      IsIssued lib t.td t.now
        (record { spiffe_id = config.id; public_key = some key.public; ttl = config.x509_svid_ttl })
        cert
        bundle
  pub signed : IsSignedBy lib ca doc td_uri issued.info cert

wake-cases : (w : Wake) → (w ≡ canceled) ⊎ ((e : String) × (w ≡ stream_failed e)) ⊎ (w ≡ rotate)
wake-cases rotate = inr (inr refl)
wake-cases canceled = inl refl
wake-cases (stream_failed e) = inr (inl (e, refl))

module _ (lib : X509Lib) (ca : CaLib) (doc : IsDocumented lib ca) (config : WorkloadConfig)
    (td_uri : String → Uri) (decimal : ℕ → String) (td_config : TrustDomainConfig)
    (url : doc.is_url (td_uri td_config.name) ≡ true) (origin : Uri)
    (valid : lib.from_uri origin ≡ ok config.id) where
  -- The trust domain of a turn has come there by rotations.
  abbrev pub HasReached : Turn → Type 0
  HasReached t = Reachable lib ca doc td_uri decimal td_config t.td

  x509_response-IsResponse :
      (t : Turn) (r : X509Response)
      → HasReached t
      → x509_response ca config t ≡ ok r
      → IsResponse lib ca doc (td_uri td_config.name) config t r
  unfolding x509_response
  x509_response-IsResponse t r reached h =
      let (key, generated, h1) = >>=-eq-ok (map_err generating t.generated) _ h in
      let (key_bytes, marshaled, h2) = >>=-eq-ok (map_err marshaling (t.marshal key)) _ h1 in
      let mint =
        td_mint_x509_svid ca t.td t.now t.random config.id (some key.public) config.x509_svid_ttl in
      let ((cert, bundle), minted, h3) = >>=-eq-ok (map_err minting mint) _ h2 in
      let built : X509Response = record {
        spiffe_id = config.id.text;
        x509_svid = cert.raw;
        x509_svid_key = key_bytes;
        bundle = der_from_certificates bundle;
      } in
      let made : ◌≡◌ {A = Result WorkloadError X509Response} (ok built) (ok r) = h3 in
      let same : built ≡ r = ground (arith, made) in
      let (issued, signed) =
        Reachable-IsIssued lib ca doc td_uri decimal td_config t.td t.now t.random config.id
          (some key.public) config.x509_svid_ttl cert bundle origin url valid reached
          (map_err-eq-ok minting mint (cert, bundle) minted) in
      subst (IsResponse lib ca doc (td_uri td_config.name) config t) same (record {
        key = key;
        generated = map_err-eq-ok generating t.generated key generated;
        cert = cert;
        bundle = bundle;
        svid = refl;
        key_bytes = map_err-eq-ok marshaling (t.marshal key) key_bytes marshaled;
        named = refl;
        trusted = refl;
        issued = issued;
        signed = signed;
      })

  -- A response and the turn it comes from.
  abbrev IsFrom : List Turn → X509Response → Type 0
  IsFrom turns r =
      (t : Turn) × In t turns × IsResponse lib ca doc (td_uri td_config.name) config t r

  here :
      (t : Turn) (turns : List Turn) (r : X509Response)
      → HasReached t
      → x509_response ca config t ≡ ok r
      → IsFrom (t ∷ turns) r
  here t turns r reached good = (t, inl refl, x509_response-IsResponse t r reached good)

  later :
      (t : Turn) (turns : List Turn) (rs : List X509Response)
      → All (IsFrom turns) rs
      → All (IsFrom (t ∷ turns)) rs
  later t turns [] h = tt
  later t turns (r ∷ rs) ((u, m, p), h) = ((u, inr m, p), later t turns rs h)

  -- Where the trust domain of each turn has come there by rotations, its URI is read back as it is
  -- written, and `FromURI` has parsed the workload's ID: every response on the stream belongs to one of
  -- its turns. It holds an SVID that the trust domain issued in that turn for the workload's ID and the
  -- key generated in the turn, with that key and the certificate of the newest authority, which is a CA
  -- certificate of the trust domain, the SVID's issuer and the signer of the SVID.
  pub fetch_x509_svid-IsResponse :
      (turns : List Turn)
      → All HasReached turns
      → All
          (λ r. (t : Turn) × In t turns × IsResponse lib ca doc (td_uri td_config.name) config t r)
          (fetch_x509_svid ca config turns).0
  unfolding fetch_x509_svid
  fetch_x509_svid-IsResponse [] h = tt
  fetch_x509_svid-IsResponse (t ∷ ts) (reached, h) =
      elim (Result-cases (x509_response ca config t)) [
        | inr (e, bad) ↦ rw (bad, fetch_x509_svid) tt
        | inl (r, good) ↦ elim (Result-cases t.send) [
          | inr (e, unsent) ↦ rw (good, unsent, fetch_x509_svid) tt
          | inl (u, sent) ↦ elim (wake-cases t.wake) [
            | inl over ↦
                let sent_all : (fetch_x509_svid ca config (t ∷ ts)).0 ≡ r ∷ [] =
                  rw (good, sent, over, fetch_x509_svid) refl in
                subst (All (IsFrom (t ∷ ts))) (sym sent_all) (here t ts r reached good, tt)
            | inr (inl (e, broken)) ↦
                let sent_all : (fetch_x509_svid ca config (t ∷ ts)).0 ≡ r ∷ [] =
                  rw (good, sent, broken, fetch_x509_svid) refl in
                subst (All (IsFrom (t ∷ ts))) (sym sent_all) (here t ts r reached good, tt)
            | inr (inr again) ↦
                let sent_all : (fetch_x509_svid ca config (t ∷ ts)).0
                    ≡ r ∷ (fetch_x509_svid ca config ts).0 =
                  rw (good, sent, again, fetch_x509_svid) refl in
                subst (All (IsFrom (t ∷ ts))) (sym sent_all) (
                  here t ts r reached good,
                  later t ts (fetch_x509_svid ca config ts).0 (fetch_x509_svid-IsResponse ts h),
                )
          ]
        ]
      ]
