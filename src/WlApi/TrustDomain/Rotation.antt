-- ===== src/WlApi/TrustDomain/Rotation.antt =====
-- The states that a trust domain reaches by rotations from `NewTrustDomain`.
use spiffecli.Prelude.{
  ℕ, ◌≡◌, ◌≢◌, inl, sym, ◌∙◌, subst, refl, ap, true, List, [], ◌∷◌, ◌++◌, some, Result, ok,
  >>=-eq-ok, map_err, map_err-eq-ok, String, All, All-append, arith,
}
use spiffecli.Prelude.Int.{ℤ, ◌+ℤ◌, ◌-ℤ◌}
use spiffecli.Cert.{Uri, X509Lib}
use spiffecli.X509Authority.{Signer, CaLib, new_serial_number}
use spiffecli.X509Authority.Mint.{CanIssue, IsDocumented, IsCutTo, create_certificate-Carries}
use spiffecli.WlApi.Config.{TrustDomainConfig}
use spiffecli.WlApi.TrustDomain.{
  X509AuthorityInfo, TrustDomain, TdError, key_failed, x509_failed, new_trust_domain, backdate,
  last, root_certificate, rotate_x509_authority, rotate_jwt_authority,
}

pub last-append {ℓ} : {A : Type ℓ} (xs : List A) (x : A) → last (xs ++ x ∷ []) ≡ some x
last-append [] x = refl
last-append (y ∷ []) x = refl
last-append (y ∷ z ∷ xs) x = last-append (z ∷ xs) x

-- A self-signed authority certificate for its key, with the trust domain's URI.
pub record IsRoot (uri : Uri) (info : X509AuthorityInfo) : Type 0 where
  pub is_ca : info.cert.is_ca ≡ true
  pub constraints : info.cert.basic_constraints_valid ≡ true
  pub own_key : info.cert.public_key ≡ info.pk.public
  pub uris : info.cert.uris ≡ uri ∷ []
  pub key_usage : info.cert.key_usage ≡ 0
  pub named : info.cert.raw_subject ≢ []

-- Such a certificate may sign.
pub IsRoot-CanIssue :
    (uri : Uri) (info : X509AuthorityInfo) → IsRoot uri info → CanIssue info.cert info.pk
IsRoot-CanIssue uri info r = record {
  is_ca = r.is_ca;
  constraints = r.constraints;
  usage = inl r.key_usage;
  own_key = r.own_key;
  named = r.named;
}

-- What a rotation adds.
pub record IsRotation (uri : Uri) (now : ℤ) (old new : TrustDomain) : Type 0 where
  pub info : X509AuthorityInfo
  pub config : new.config ≡ old.config
  pub jwt : new.jwt_authorities ≡ old.jwt_authorities
  pub appended : new.x509_authorities ≡ old.x509_authorities ++ info ∷ []
  pub newest : last new.x509_authorities ≡ some info
  pub root : IsRoot uri info
  pub starts : IsCutTo (now -ℤ backdate) info.cert.not_before
  pub ends : IsCutTo (now +ℤ old.config.x509_authority_ttl) info.cert.not_after

module _ (lib : X509Lib) (ca : CaLib) (doc : IsDocumented lib ca) (td_uri : String → Uri)
    (decimal : ℕ → String) where
  -- A rotation that succeeds adds one authority at the end, the newest, and changes nothing else. Its
  -- certificate is a CA certificate for the new key with the trust domain's URI, and runs (to the
  -- second) from one second ago for the configured TTL.
  pub rotate_x509_authority-IsRotation :
      (generated : Result String Signer) (now : ℤ) (random : Result String ℕ) (td td' : TrustDomain)
      → doc.is_url (td_uri td.config.name) ≡ true
      → rotate_x509_authority ca td_uri decimal generated now random td ≡ ok td'
      → IsRotation (td_uri td.config.name) now td td'
  unfolding rotate_x509_authority root_certificate
  rotate_x509_authority-IsRotation generated now random td td' url h =
      let (key, _, h1) = >>=-eq-ok (map_err key_failed generated) _ h in
      let (cert, made, h2) =
        >>=-eq-ok
          (map_err x509_failed (root_certificate ca td_uri decimal td.config key now random)) _
          h1 in
      let made' =
        map_err-eq-ok x509_failed (root_certificate ca td_uri decimal td.config key now random) cert
          made in
      let (serial, _, created) = >>=-eq-ok (new_serial_number random) _ made' in
      let c = create_certificate-Carries lib ca doc _ _ _ _ cert created in
      let info : X509AuthorityInfo = record { pk = key; cert = cert } in
      let built : ◌≡◌ {A = Result TdError TrustDomain}
          (ok (record td { x509_authorities = td.x509_authorities ++ info ∷ [] })) (ok td') =
        h2 in
      let longer : td'.x509_authorities ≡ td.x509_authorities ++ info ∷ [] =
        ground (arith, built) in
      record {
        info = info;
        config = ground (arith, built);
        jwt = ground (arith, built);
        appended = longer;
        newest = ap last longer ∙ last-append td.x509_authorities info;
        root = record {
          is_ca = c.is_ca refl;
          constraints = c.basic_constraints_valid;
          own_key = c.public_key;
          uris = c.uris (url, tt);
          key_usage = c.key_usage (omega arith);
          named = c.named;
        };
        starts = c.not_before;
        ends = c.not_after;
      }

  -- The rotations of either kind, in any order, at any times and outcomes.
  pub data Reachable (config : TrustDomainConfig) : TrustDomain → Type 0 where
    start : Reachable config (new_trust_domain config)
    x509 :
        (generated : Result String Signer) (now : ℤ) (random : Result String ℕ)
        (td td' : TrustDomain)
        → Reachable config td
        → rotate_x509_authority ca td_uri decimal generated now random td ≡ ok td'
        → Reachable config td'
    jwt :
        (generated : Result String Signer) (now : ℤ) (counter counter' : ℕ) (td td' : TrustDomain)
        → Reachable config td
        → rotate_jwt_authority ca td_uri decimal generated now counter td ≡ ok (td', counter')
        → Reachable config td'

  -- The configuration is fixed, and every authority is a root of the trust domain.
  pub record IsWellFormed (config : TrustDomainConfig) (td : TrustDomain) : Type 0 where
    pub config_kept : td.config ≡ config
    pub roots : All (IsRoot (td_uri config.name)) td.x509_authorities

  -- A JWT rotation keeps the configuration and the X.509 authorities.
  rotate_jwt_authority-keeps :
      (generated : Result String Signer) (now : ℤ) (counter counter' : ℕ) (td td' : TrustDomain)
      → rotate_jwt_authority ca td_uri decimal generated now counter td ≡ ok (td', counter')
      → (td'.config ≡ td.config) × (td'.x509_authorities ≡ td.x509_authorities)
  unfolding rotate_jwt_authority
  rotate_jwt_authority-keeps generated now counter counter' td td' h =
      let (key, _, h1) = >>=-eq-ok (map_err key_failed generated) _ h in
      (ground (arith, h1), ground (arith, h1))

  -- Where the trust domain's URI is read back as it is written, every state reached from a new trust
  -- domain by rotations keeps its configuration, and each of its X.509 authorities is a CA certificate
  -- for its own key with this URI, without a key usage that keeps it from signing.
  pub Reachable-IsWellFormed :
      (config : TrustDomainConfig) (td : TrustDomain)
      → doc.is_url (td_uri config.name) ≡ true
      → Reachable config td
      → IsWellFormed config td
  unfolding new_trust_domain
  Reachable-IsWellFormed config td url start = record { config_kept = refl; roots = tt }
  Reachable-IsWellFormed config td' url (x509 generated now random td td'' r h) =
      let before = Reachable-IsWellFormed config td url r in
      let url' = subst (λ c. doc.is_url (td_uri c.name) ≡ true) (sym before.config_kept) url in
      let step = rotate_x509_authority-IsRotation generated now random td td' url' h in
      let root = subst (λ c. IsRoot (td_uri c.name) step.info) before.config_kept step.root in
      record {
        config_kept = step.config ∙ before.config_kept;
        roots = rw step.appended (
            All-append (IsRoot (td_uri config.name)) td.x509_authorities (step.info ∷ [])
              before.roots (root, tt));
      }
  Reachable-IsWellFormed config td' url (jwt generated now counter counter' td td'' r h) =
      let before = Reachable-IsWellFormed config td url r in
      let (same_config, same) =
        rotate_jwt_authority-keeps generated now counter counter' td td' h in
      record { config_kept = same_config ∙ before.config_kept; roots = rw same before.roots }
