-- ===== src/JwtSvid/Signing.antt =====
-- What a signed token holds.
use spiffecli.Prelude.{
  ◌≡◌, ◌⊎◌, ◌≢◌, refl, sym, subst, Bool-cases, true, not, some, inl, inr, List, [], ◌∷◌, ok,
  >>=-eq-ok, guard, guard-eq-ok, map_err, map_err-eq-ok, String, ◌=ₛ◌, =ₛ_iff, In, All, is_empty,
}
use spiffecli.Prelude.Int.{ℤ, pos, eqb_ℤ}
use spiffecli.Cert.{SpiffeId}
use spiffecli.Cryptoutil.{rs256, es256, es384, jose_alg_from_public_key}
use spiffecli.Cryptoutil.Keys.{jose_alg_names}
use spiffecli.X509Authority.{Signer, is_zero_id}
use spiffecli.Jwt.{text, Claims, JwtSigner, JoseLib}
use spiffecli.JwtInspect.{svid_signature_algorithms}
use spiffecli.JwtAuthority.Mint.{IsDocumented}
use spiffecli.JwtSvid.Validation.{set_of_test}
use spiffecli.JwtSvid.{
  id_required, expiration_required, audience_required, kid_required, no_algorithm, signer_failed,
  signing_failed, prune_empty_values, sign_token,
}

-- A list without its empty values, in the same order.
pub data IsPruned : List String → List String → Type 0 where
  nothing : IsPruned [] []
  dropped : (vs ws : List String) → IsPruned vs ws → IsPruned ("" ∷ vs) ws
  kept : (v : String) (vs ws : List String) → v ≢ "" → IsPruned vs ws → IsPruned (v ∷ vs) (v ∷ ws)

prune_empty_values-IsPruned : (vs : List String) → IsPruned vs (prune_empty_values vs)
unfolding prune_empty_values
prune_empty_values-IsPruned [] = nothing
prune_empty_values-IsPruned (v ∷ vs) = elim (Bool-cases (v =ₛ "")) [
  | inl empty ↦
      rw (empty, prune_empty_values)
        (subst (λ x. IsPruned (x ∷ vs) (prune_empty_values vs)) (sym ((=ₛ_iff v "").0 empty))
          (dropped vs (prune_empty_values vs) (prune_empty_values-IsPruned vs)))
  | inr full ↦
      rw (full, prune_empty_values)
        (kept v vs (prune_empty_values vs) (λ e. cc ((=ₛ_iff v "").1 e, full))
          (prune_empty_values-IsPruned vs))
]

prune_empty_values-All : (vs : List String) → All (λ v. v ≢ "") (prune_empty_values vs)
unfolding prune_empty_values
prune_empty_values-All [] = tt
prune_empty_values-All (v ∷ vs) = elim (Bool-cases (v =ₛ "")) [
  | inl empty ↦ rw (empty, prune_empty_values) (prune_empty_values-All vs)
  | inr full ↦
      rw (full, prune_empty_values) (λ e. cc ((=ₛ_iff v "").1 e, full), prune_empty_values-All vs)
]

supported_name :
    (alg : String)
    → (alg ≡ rs256) ⊎ (alg ≡ es256) ⊎ (alg ≡ es384)
    → In alg svid_signature_algorithms
supported_name alg (inl rs) = inl rs
supported_name alg (inr (inl es)) = inr (inr (inr (inl es)))
supported_name alg (inr (inr es)) = inr (inr (inr (inr (inl es))))

-- The token as it parses.
pub record IsSigned (jose : JoseLib) (id : SpiffeId) (audience : List String) (expires : ℤ)
    (kid token : String) : Type 0 where
  pub algorithm : String
  pub claims : Claims
  pub parsed :
      jose.parse_signed token
      ≡ ok (record {
        headers =
            record { algorithm = algorithm; key_id = kid; extra_typ = some (text "JWT") } ∷ [];
        claims = ok claims;
      })
  pub supported : In algorithm svid_signature_algorithms
  pub key_named : kid ≢ ""
  pub subject : claims.subject ≡ id.text
  pub named : id.text ≢ ""
  pub pruned : IsPruned audience claims.audience
  pub some_audience : claims.audience ≢ []
  pub no_empty_audience : All (λ v. v ≢ "") claims.audience
  pub expiry : claims.expiry ≡ some (jose.numeric_date expires)

nonempty_of_test : (vs : List String) → not (is_empty vs) ≡ true → vs ≢ []
nonempty_of_test vs h e = cc (rw e at h)

-- A token that `SignToken` returns parses to one header, with an algorithm of JWT-SVIDs and the given
-- key ID, which is not empty; its subject is the text of the given ID, which is not empty, its audience
-- is the given one without the empty values and not empty, and its expiry is the given one to the
-- second.
pub sign_token-IsSigned :
    (jose : JoseLib) (doc : IsDocumented jose) (issuer : String) (now : ℤ) (id : SpiffeId)
    (audience : List String) (expires : ℤ) (signer : Signer) (kid token : String)
    → sign_token jose issuer now id audience expires signer kid ≡ ok token
    → IsSigned jose id audience expires kid token
unfolding sign_token
sign_token-IsSigned jose doc issuer now id audience expires signer kid token h =
    let (u1, named, h1) = >>=-eq-ok (guard (not (is_zero_id id)) id_required) _ h in
    let (u2, _, h2) = >>=-eq-ok (guard (not (eqb_ℤ expires (pos 0))) expiration_required) _ h1 in
    let (u3, listed, h3) =
      >>=-eq-ok (guard (not (is_empty (prune_empty_values audience))) audience_required) _ h2 in
    let (u4, keyed, h4) = >>=-eq-ok (guard (not (kid =ₛ "")) kid_required) _ h3 in
    let (alg, found, h5) =
      >>=-eq-ok (map_err no_algorithm (jose_alg_from_public_key signer.public)) _ h4 in
    let config : JwtSigner = record { algorithm = alg; key = signer; key_id = kid } in
    let (made, created, h6) = >>=-eq-ok (map_err signer_failed (jose.new_signer config)) _ h5 in
    let c : Claims = record {
      issuer = issuer;
      subject = id.text;
      audience = prune_empty_values audience;
      expiry = some (jose.numeric_date expires);
      issued_at = some (jose.numeric_date now);
      id = "";
    } in
    let kept =
      doc.signer config made (map_err-eq-ok signer_failed (jose.new_signer config) made created) in
    let signed = map_err-eq-ok signing_failed (jose.sign made c) token h6 in
    let signed' : jose.sign config c ≡ ok token =
      subst (λ s. jose.sign s c ≡ ok token) kept signed in
    record {
      algorithm = alg;
      claims = c;
      parsed = doc.parse_sign config c token signed';
      supported = supported_name alg (
          jose_alg_names signer.public alg
            (map_err-eq-ok no_algorithm (jose_alg_from_public_key signer.public) alg found));
      key_named = set_of_test kid (guard-eq-ok (not (kid =ₛ "")) kid_required u4 keyed);
      subject = refl;
      named = set_of_test id.text (guard-eq-ok (not (is_zero_id id)) id_required u1 named);
      pruned = prune_empty_values-IsPruned audience;
      some_audience =
          nonempty_of_test (prune_empty_values audience) (
            guard-eq-ok (not (is_empty (prune_empty_values audience))) audience_required u3 listed);
      no_empty_audience = prune_empty_values-All audience;
      expiry = refl;
    }
