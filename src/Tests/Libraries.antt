-- ===== src/Tests/Libraries.antt =====
-- Libraries that behave as documented: they issue the certificates and the token of the tests.
use spiffecli.Prelude.{
  ℕ, zero, suc, ◌==◌, ◌≡◌, ◌∙◌, ◌⊎◌, refl, sym, ap, inl, inr, Bool, Bool-cases, true, false, ◌&&◌,
  Option, none, some, ◌≢◌, List, [], ◌∷◌, Result, ok, err, String, Bytes, ◌=ₛ◌, =ₛ_iff, bytes_equal,
  bytes_equal_iff, if◌then◌else◌, arith, subst,
}
use spiffecli.Prelude.Int.{ℤ, pos, +ℤ_parts, eqb_ℤ, eq_of_parts}
use spiffecli.Cert.{PublicKey, rsa_public, Uri, SpiffeId, Cert}
use spiffecli.X509Authority.{second, Template, CaLib}
use spiffecli.X509Authority.Mint
use spiffecli.X509Authority.Mint.{Carries, IsCutTo}
use spiffecli.Jwt.{text, Claims, Token, JwtSigner, JoseLib}
use spiffecli.JwtAuthority.Mint as JwtMint
use spiffecli.Tests.Fixtures.{lib, from_uri, root, leaf, seconds, root_signer}

abbrev pub same_key : PublicKey → PublicKey → Bool
same_key (rsa_public b n e) (rsa_public b' n' e') = b == b' && (n == n' && e == e')
same_key _ _ = false

pub same_key-eq : (k k' : PublicKey) → same_key k k' ≡ true → k ≡ k'
same_key-eq (rsa_public b n e) (rsa_public b' n' e') h = ground arith
same_key-eq _ _ h = cc

abbrev same_uris : List Uri → List Uri → Bool
same_uris (u ∷ []) (v ∷ []) = u.scheme =ₛ v.scheme && u.text =ₛ v.text
same_uris _ _ = false

same_uris-eq : (us vs : List Uri) → same_uris us vs ≡ true → us ≡ vs
same_uris-eq (u ∷ []) (v ∷ []) h = ground (arith, =ₛ_iff u.scheme v.scheme, =ₛ_iff u.text v.text)
same_uris-eq _ _ h = cc

abbrev same_bool : Bool → Bool → Bool
same_bool true b = b
same_bool false true = false
same_bool false false = true

same_bool-eq : (a b : Bool) → same_bool a b ≡ true → a ≡ b
same_bool-eq a b h = ground arith

-- The template and the key are those of a certificate.
abbrev matches : Template → PublicKey → Cert → Bool
matches t k c =
    same_uris c.uris t.uris
    && (eqb_ℤ c.not_before t.not_before
        && (eqb_ℤ c.not_after t.not_after
            && (c.key_usage == t.key_usage
                && (bytes_equal c.ext_key_usage t.ext_key_usage
                    && (same_bool c.is_ca t.is_ca
                        && (same_bool c.basic_constraints_valid t.basic_constraints_valid
                            && (same_key c.public_key k
                                && bytes_equal c.authority_key_id t.authority_key_id)))))))

-- The parent is the issuer, where there is one.
abbrev is_issuer : Option Cert → Cert → Bool
is_issuer none c = true
is_issuer (some p) c = bytes_equal c.raw_issuer p.raw_subject

is_issuer-some :
    (o : Option Cert) (p c : Cert)
    → o ≡ some p
    → is_issuer o c ≡ true
    → c.raw_issuer ≡ p.raw_subject
is_issuer-some none p c e h = cc
is_issuer-some (some q) p c e h =
    let same : q ≡ p = cc in
    (bytes_equal_iff c.raw_issuer q.raw_subject).0 h ∙ ap (λ x. x.raw_subject) same

and6 :
    (a b c d e f : Bool)
    → (a && (b && (c && (d && (e && f))))) ≡ true
    → (a ≡ true) × (b ≡ true) × (c ≡ true) × (d ≡ true) × (e ≡ true) × (f ≡ true)
and6 a b c d e f h = ground arith

and9 :
    (a b c d e f g i j : Bool)
    → (a && (b && (c && (d && (e && (f && (g && (i && j)))))))) ≡ true
    → (a ≡ true)
      × (b ≡ true)
      × (c ≡ true)
      × (d ≡ true)
      × (e ≡ true)
      × (f ≡ true)
      × (g ≡ true)
      × (i ≡ true)
      × (j ≡ true)
and9 a b c d e f g i j h = ground arith

eqb-eq : (a b : ℤ) → eqb_ℤ a b ≡ true → a ≡ b
eqb-eq a b h = eq_of_parts a b (ground arith)

number-eq : (a b : ℕ) → (a == b) ≡ true → a ≡ b
number-eq a b h = ground arith

cut_same : (t : ℤ) → IsCutTo t t
cut_same t = (omega arith, omega (arith, +ℤ_parts t (pos second)))

matches-Carries :
    (t : Template) (parent : Option Cert) (k : PublicKey) (c : Cert)
    → c.unknown_ext_key_usage ≡ []
    → c.raw_subject ≢ []
    → matches t k c ≡ true
    → Carries (λ u. true) t parent k c
matches-Carries t parent k c none_unknown named h =
    let (a1, a2, a3, a4, a5, a6, a7, a8, a9) =
      and9 (same_uris c.uris t.uris) (eqb_ℤ c.not_before t.not_before)
        (eqb_ℤ c.not_after t.not_after) (c.key_usage == t.key_usage)
        (bytes_equal c.ext_key_usage t.ext_key_usage) (same_bool c.is_ca t.is_ca)
        (same_bool c.basic_constraints_valid t.basic_constraints_valid) (same_key c.public_key k)
        (bytes_equal c.authority_key_id t.authority_key_id) h in
    record {
      uris = λ _. same_uris-eq c.uris t.uris a1;
      not_before =
          subst (λ x. IsCutTo x c.not_before) (eqb-eq c.not_before t.not_before a2)
            (cut_same c.not_before);
      not_after =
          subst (λ x. IsCutTo x c.not_after) (eqb-eq c.not_after t.not_after a3)
            (cut_same c.not_after);
      key_usage = λ _. number-eq c.key_usage t.key_usage a4;
      ext_key_usage = (bytes_equal_iff c.ext_key_usage t.ext_key_usage).0 a5;
      unknown_ext_key_usage = none_unknown;
      is_ca = λ _. same_bool-eq c.is_ca t.is_ca a6;
      basic_constraints_valid = same_bool-eq c.basic_constraints_valid t.basic_constraints_valid a7;
      public_key = same_key-eq c.public_key k a8;
      authority_key_id = inl ((bytes_equal_iff c.authority_key_id t.authority_key_id).0 a9);
      named = named;
    }

abbrev choose : Bool → Bool → Result String Bytes
choose true b = ok (0 ∷ [])
choose false true = ok (1 ∷ [])
choose false false = err "unknown"

choose-cases :
    (a b : Bool) (der : Bytes)
    → choose a b ≡ ok der
    → ((a ≡ true) × (0 ∷ [] ≡ der)) ⊎ ((b ≡ true) × (1 ∷ [] ≡ der))
choose-cases true b der h = inl (refl, ground (arith, h))
choose-cases false true der h = inr (refl, ground (arith, h))
choose-cases false false der h = cc

abbrev create : Template → Option Cert → PublicKey → Result String Bytes
create t parent k =
    choose (matches t k root && is_issuer parent root) (matches t k leaf && is_issuer parent leaf)

abbrev parse : Bytes → Result String Cert
parse [] = err "empty"
parse (zero ∷ bs) = ok root
parse (suc n ∷ bs) = ok leaf

abbrev pub ca : CaLib
ca = record {
  create_certificate = λ t parent k signer. create t parent k;
  parse_certificate = parse;
  marshal_pkix_public_key = λ k. ok (3 ∷ []);
  unmarshal_key_bits = λ b. ok b;
  sha1 = λ b. b;
  id_url = λ i. record { scheme = "spiffe"; text = i.text };
}

ok_injective : (a b : Cert) → ◌≡◌ {A = Result String Cert} (ok a) (ok b) → a ≡ b
ok_injective a b h = cc

and_true : (a b : Bool) → (a && b) ≡ true → (a ≡ true) × (b ≡ true)
and_true a b h = ground arith

create-Carries :
    (t : Template) (parent : Option Cert) (k : PublicKey) (der : Bytes) (c : Cert)
    → create t parent k ≡ ok der
    → parse der ≡ ok c
    → Carries (λ u. true) t parent k c × (is_issuer parent c ≡ true)
create-Carries t parent k der c made parsed =
    elim (choose-cases (matches t k root && is_issuer parent root)
      (matches t k leaf && is_issuer parent leaf) der made) [
        | inl (r, same) ↦
            let (m, i) = and_true (matches t k root) (is_issuer parent root) r in
            let got : ◌≡◌ {A = Result String Cert} (ok root) (ok c) = ap parse same ∙ parsed in
            let it : root ≡ c = ok_injective root c got in
            subst (λ x. Carries (λ u. true) t parent k x × (is_issuer parent x ≡ true)) it
              (matches-Carries t parent k root refl (λ e. cc) m, i)
        | inr (l, same) ↦
            let (m, i) = and_true (matches t k leaf) (is_issuer parent leaf) l in
            let got : ◌≡◌ {A = Result String Cert} (ok leaf) (ok c) = ap parse same ∙ parsed in
            let it : leaf ≡ c = ok_injective leaf c got in
            subst (λ x. Carries (λ u. true) t parent k x × (is_issuer parent x ≡ true)) it
              (matches-Carries t parent k leaf refl (λ e. cc) m, i)
      ]

-- An ID of the tests is its URI's text.
from_uri-url :
    (u : Uri) (i : SpiffeId)
    → from_uri u ≡ ok i
    → from_uri (record { scheme = "spiffe"; text = i.text }) ≡ ok i
from_uri-url u i h = elim (Bool-cases (u.scheme =ₛ "spiffe")) [
  | inr other ↦ cc (rw other at h)
  | inl named ↦
      let made : ◌≡◌ {A = Result String SpiffeId}
          (ok (record { text = u.text; trust_domain = "example.org"; path = "/web" })) (ok i) =
        rw named at h in
      let same : record { text = u.text; trust_domain = "example.org"; path = "/web" } ≡ i =
        id_injective _ i made in
      subst (λ x. from_uri (record { scheme = "spiffe"; text = x.text }) ≡ ok x) same refl
]
  where
    id_injective : (a b : SpiffeId) → ◌≡◌ {A = Result String SpiffeId} (ok a) (ok b) → a ≡ b
    id_injective a b e = cc

pub ca-IsDocumented : Mint.IsDocumented lib ca
ca-IsDocumented = record {
  is_url = λ u. true;
  carries = λ t parent k signer der c made parsed. (create-Carries t parent k der c made parsed).0;
  signed = λ t parent k signer der c made parsed can.
      let issuer =
        is_issuer-some (some parent) parent c refl
          (create-Carries t (some parent) k der c made parsed).1 in
      (issuer, (bytes_equal_iff c.raw_issuer parent.raw_subject).1 issuer);
  url = λ u i h. (from_uri-url u i h, refl);
}

pub every_url : (u : Uri) → ca-IsDocumented.is_url u ≡ true
unfolding ca-IsDocumented
every_url u = refl

-- The token of the tests: its signer and its claims.
abbrev pub token_signer : JwtSigner
token_signer = record { algorithm = "RS256"; key = root_signer; key_id = "k1" }

abbrev pub token_claims : Claims
token_claims = record {
  issuer = "";
  subject = "spiffe://example.org/web";
  audience = "db" ∷ [];
  expiry = some (seconds 5600);
  issued_at = some (seconds 2000);
  id = "";
}

abbrev pub parsed_token : Token
parsed_token = record {
  headers = record { algorithm = "RS256"; key_id = "k1"; extra_typ = some (text "JWT") } ∷ [];
  claims = ok token_claims;
}

abbrev same_texts : List String → List String → Bool
same_texts (s ∷ []) (t ∷ []) = s =ₛ t
same_texts _ _ = false

same_texts-eq : (ss ts : List String) → same_texts ss ts ≡ true → ss ≡ ts
same_texts-eq (s ∷ []) (t ∷ []) h = ground (arith, =ₛ_iff s t)
same_texts-eq _ _ h = cc

abbrev same_time : Option ℤ → Option ℤ → Bool
same_time (some a) (some b) = eqb_ℤ a b
same_time _ _ = false

same_time-eq : (a b : Option ℤ) → same_time a b ≡ true → a ≡ b
same_time-eq (some a) (some b) h = ap some (eq_of_parts a b (ground arith))
same_time-eq _ _ h = cc

abbrev same_claims : Claims → Claims → Bool
same_claims c d =
    c.issuer =ₛ d.issuer
    && (c.subject =ₛ d.subject
        && (same_texts c.audience d.audience
            && (same_time c.expiry d.expiry
                && (same_time c.issued_at d.issued_at && c.id =ₛ d.id))))

same_claims-eq : (c d : Claims) → same_claims c d ≡ true → c ≡ d
same_claims-eq c d h =
    let (a1, a2, a3, a4, a5, a6) =
      and6 (c.issuer =ₛ d.issuer) (c.subject =ₛ d.subject) (same_texts c.audience d.audience)
        (same_time c.expiry d.expiry) (same_time c.issued_at d.issued_at) (c.id =ₛ d.id) h in
    ground (
      arith,
      (=ₛ_iff c.issuer d.issuer).0 a1,
      (=ₛ_iff c.subject d.subject).0 a2,
      same_texts-eq c.audience d.audience a3,
      same_time-eq c.expiry d.expiry a4,
      same_time-eq c.issued_at d.issued_at a5,
      (=ₛ_iff c.id d.id).0 a6,
    )

-- Signs the claims of the tests only.
abbrev sign : JwtSigner → Claims → Result String String
sign s c =
    if s.algorithm =ₛ "RS256" && (s.key_id =ₛ "k1" && same_claims c token_claims)
    then ok "token"
    else err "unknown"

abbrev pub jose : JoseLib
jose = record {
  new_signer = λ s. ok s;
  sign = sign;
  parse_signed = λ t. ok parsed_token;
  numeric_date = λ t. t;
  from_string = λ t. ok (record { text = t; trust_domain = "example.org"; path = "/web" });
}

and3 : (a b c : Bool) → (a && (b && c)) ≡ true → (a ≡ true) × (b ≡ true) × (c ≡ true)
and3 a b c h = ground arith

parse-sign :
    (s : JwtSigner) (c : Claims) (token : String)
    → sign s c ≡ ok token
    → ◌≡◌ {A = Result String Token} (ok parsed_token) (
        ok (record {
          headers =
              record { algorithm = s.algorithm; key_id = s.key_id; extra_typ = some (text "JWT") }
              ∷ [];
          claims = ok c;
        }))
parse-sign s c token h =
    elim (Bool-cases (s.algorithm =ₛ "RS256" && (s.key_id =ₛ "k1" && same_claims c token_claims))) [
      | inr bad ↦
          let refused : ◌≡◌ {A = Result String String} (err "unknown") (ok token) =
            sym (ap (λ b. if b then ok "token" else err "unknown") bad) ∙ h in
          cc
      | inl good ↦
          let (a1, a2, a3) =
            and3 (s.algorithm =ₛ "RS256") (s.key_id =ₛ "k1") (same_claims c token_claims) good in
          let e1 : s.algorithm ≡ "RS256" = (=ₛ_iff s.algorithm "RS256").0 a1 in
          let e2 : s.key_id ≡ "k1" = (=ₛ_iff s.key_id "k1").0 a2 in
          let e3 : c ≡ token_claims = same_claims-eq c token_claims a3 in rw (e1, e2, e3) refl
    ]

pub jose-IsDocumented : JwtMint.IsDocumented jose
jose-IsDocumented = record {
  signer = λ s t e. cc;
  parse_sign = parse-sign;
  date_le = λ t. omega arith;
  date_lt = λ t. omega (arith, +ℤ_parts t (pos second));
  named = λ s i h. parsed s i h;
}
  where
    parsed :
        (s : String) (i : SpiffeId)
        → ◌≡◌ {A = Result String SpiffeId}
            (ok (record { text = s; trust_domain = "example.org"; path = "/web" }))
            (ok i)
        → i.text ≡ s
    parsed s i h = ground (arith, h)
