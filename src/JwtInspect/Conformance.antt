-- ===== src/JwtInspect/Conformance.antt =====
-- The check against the rules of the JWT-SVID standard.
use spiffecli.Prelude.{
  ◌≡◌, ◌≢◌, ◌↔◌, ◌⊎◌, inl, inr, refl, Bool, true, false, not, Option, none, some, List, [], ◌∷◌,
  Result, ok, String, arith, ◌=ₛ◌, =ₛ_iff, one_of, one_of_iff, In, is_empty, is_ok, if◌then◌else◌,
  Result-cases, Option-cases, Bool-cases, sym, subst,
}
use spiffecli.Prelude.Int.{ℤ, pos, eqb_ℤ, eq_of_parts}
use spiffecli.Cert.{SpiffeId}
use spiffecli.Jwt.{HeaderValue, nil, text, other, Header, Claims, Token, JoseLib}
use spiffecli.JwtInspect.{
  svid_signature_algorithms, JwtReason, Flags, typ_of_header, scan_header, scan_headers,
  expiry_is_bad, reasons, is_svid,
}

-- Some header has the property.
abbrev pub Some : (Header → Type 0) → List Header → Type 0
Some P [] = ⊥
Some P (h ∷ hs) = P h ⊎ Some P hs

abbrev pub IsSupported : Header → Type 0
IsSupported h = In h.algorithm svid_signature_algorithms

-- The header has extra headers, and among them `typ` is JWT or JOSE or missing.
abbrev pub HasGoodTyp : Header → Type 0
HasGoodTyp h =
    (h.extra_typ ≡ some nil)
    ⊎ (h.extra_typ ≡ some (text "JWT"))
    ⊎ (h.extra_typ ≡ some (text "JOSE"))

-- What `isSvid` requires of a token.
pub record IsJwtSvid (lib : JoseLib) (tok : Token) (c : Claims) : Type 0 where
  pub supported : Some IsSupported tok.headers
  pub typed : Some HasGoodTyp tok.headers
  pub id : SpiffeId
  pub named : lib.from_string c.subject ≡ ok id
  pub audience : c.audience ≢ []
  pub expiry : ℤ
  pub expires : c.expiry ≡ some expiry
  pub expiry_set : expiry ≢ pos 0

typ_of_header_iff : (h : Header) → (typ_of_header h.extra_typ ≡ true) ↔ HasGoodTyp h
typ_of_header_iff h = go h.extra_typ
  where
    go :
        (o : Option HeaderValue)
        → (typ_of_header o ≡ true)
          ↔ ((o ≡ some nil) ⊎ (o ≡ some (text "JWT")) ⊎ (o ≡ some (text "JOSE")))
    go none = ground arith
    go (some nil) = ground arith
    go (some (text t)) = ground (arith, =ₛ_iff t "JWT", =ₛ_iff t "JOSE")
    go (some other) = ground arith

-- The test for the empty text changes nothing where the list lacks it.
algorithm_test :
    (a : String) (l : List String) (old : Bool)
    → one_of "" l ≡ false
    → ((if not (a =ₛ "") then (if one_of a l then true else old) else old) ≡ true)
      ↔ (In a l ⊎ (old ≡ true))
algorithm_test a l old h = elim (Bool-cases (a =ₛ "")) [
  | inl e ↦
      let missing : one_of a l ≡ false =
        subst (λ x. one_of x l ≡ false) (sym ((=ₛ_iff a "").0 e)) h in
      rw e (ground (arith, one_of_iff a l, missing))
  | inr e ↦ rw e (ground (arith, one_of_iff a l))
]

scan_header-supported :
    (f : Flags) (h : Header)
    → ((scan_header f h).supported ≡ true) ↔ (IsSupported h ⊎ (f.supported ≡ true))
unfolding scan_header
scan_header-supported f h = algorithm_test h.algorithm svid_signature_algorithms f.supported refl

scan_headers-supported :
    (f : Flags) (hs : List Header)
    → ((scan_headers f hs).supported ≡ true) ↔ (Some IsSupported hs ⊎ (f.supported ≡ true))
unfolding scan_headers
scan_headers-supported f [] = ground arith
scan_headers-supported f (h ∷ hs) =
    let step = scan_header-supported f h in
    let rest = scan_headers-supported (scan_header f h) hs in
    (
      λ e. elim (rest.0 e) [
        | inl later ↦ inl (inr later)
        | inr now ↦ elim (step.0 now) [ inl k ↦ inl (inl k) | inr k ↦ inr k ]
      ],
      λ e. rest.1 (elim e [
        | inl (inl k) ↦ inr (step.1 (inl k))
        | inl (inr k) ↦ inl k
        | inr k ↦ inr (step.1 (inr k))
      ]),
    )

scan_headers-typ :
    (f : Flags) (hs : List Header)
    → ((scan_headers f hs).typ_correct ≡ true) ↔ (Some HasGoodTyp hs ⊎ (f.typ_correct ≡ true))
unfolding scan_headers scan_header
scan_headers-typ f [] = ground arith
scan_headers-typ f (h ∷ hs) =
    let step = typ_of_header_iff h in
    let rest = scan_headers-typ (scan_header f h) hs in
    (
      λ e. elim (rest.0 e) [
        | inl later ↦ inl (inr later)
        | inr now ↦ elim (Bool-cases (typ_of_header h.extra_typ)) [
          | inl good ↦ inl (inl (step.0 good))
          | inr bad ↦ inr (rw bad at now)
        ]
      ],
      λ e. rest.1 (elim e [
        | inl (inl k) ↦ inr (rw (step.1 k))
        | inl (inr k) ↦ inl k
        | inr k ↦ inr (ground arith)
      ]),
    )

-- The flags after the loop, which starts from false.
module _ (tok : Token) where
  abbrev flags : Flags
  flags = scan_headers (record { supported = false; typ_correct = false }) tok.headers

  flags_supported_iff : (flags.supported ≡ true) ↔ Some IsSupported tok.headers
  flags_supported_iff = ground (
    arith,
    scan_headers-supported (record { supported = false; typ_correct = false }) tok.headers,
  )

  flags_typ_iff : (flags.typ_correct ≡ true) ↔ Some HasGoodTyp tok.headers
  flags_typ_iff =
      ground
        (arith, scan_headers-typ (record { supported = false; typ_correct = false }) tok.headers)

-- All five tests pass.
abbrev Passes : JoseLib → Flags → Claims → Type 0
Passes lib f c =
    (f.supported ≡ true)
    × (f.typ_correct ≡ true)
    × (is_ok (lib.from_string c.subject) ≡ true)
    × (is_empty c.audience ≡ false)
    × (expiry_is_bad c.expiry ≡ false)

reasons-empty :
    (lib : JoseLib) (f : Flags) (c : Claims) → (is_empty (reasons lib f c) ≡ true) ↔ Passes lib f c
unfolding reasons
reasons-empty lib f c = ground arith

verdict_iff :
    (rs : List JwtReason)
    → (◌≡◌ {A = Result String (Bool × List JwtReason)} (ok (is_empty rs, rs)) (ok (true, [])))
      ↔ (is_empty rs ≡ true)
verdict_iff [] = ground arith
verdict_iff (r ∷ rs) = ground arith

is_svid_iff_Passes :
    (lib : JoseLib) (tok : Token) (c : Claims)
    → tok.claims ≡ ok c
    → (is_svid lib tok ≡ ok (true, [])) ↔ Passes lib (flags tok) c
unfolding is_svid
is_svid_iff_Passes lib tok c e =
    let verdict = verdict_iff (reasons lib (flags tok) c) in
    let passes = reasons-empty lib (flags tok) c in
    rw (e, is_svid) (λ h. passes.0 (verdict.0 h), λ h. verdict.1 (passes.1 h))

Passes-IsJwtSvid :
    (lib : JoseLib) (tok : Token) (c : Claims) → Passes lib (flags tok) c → IsJwtSvid lib tok c
Passes-IsJwtSvid lib tok c (supported, typed, named, audience, expires) =
    elim (Result-cases (lib.from_string c.subject)) [
      | inr (f, e) ↦ cc (rw e at named)
      | inl (id, e) ↦ elim (Option-cases c.expiry) [
        | inl absent ↦ cc (rw absent at expires)
        | inr (t, set) ↦ record {
          supported = (flags_supported_iff tok).0 supported;
          typed = (flags_typ_iff tok).0 typed;
          id = id;
          named = e;
          audience = λ k. cc (rw k at audience);
          expiry = t;
          expires = set;
          expiry_set = set_of_test t (rw set at expires);
        }
      ]
    ]
  where
    set_of_test : (t : ℤ) → eqb_ℤ t (pos 0) ≡ false → t ≢ pos 0
    set_of_test t h e = cc (rw e at h)

IsJwtSvid-Passes :
    (lib : JoseLib) (tok : Token) (c : Claims) → IsJwtSvid lib tok c → Passes lib (flags tok) c
IsJwtSvid-Passes lib tok c s = (
  (flags_supported_iff tok).1 s.supported,
  (flags_typ_iff tok).1 s.typed,
  rw s.named,
  nonempty c.audience s.audience,
  rw s.expires (test_of_set s.expiry s.expiry_set),
)
  where
    nonempty : (l : List String) → l ≢ [] → is_empty l ≡ false
    nonempty [] h = absurd (h refl)
    nonempty (x ∷ l) h = refl

    test_of_set : (t : ℤ) → t ≢ pos 0 → eqb_ℤ t (pos 0) ≡ false
    test_of_set t h = ground (arith, eq_of_parts t (pos 0))

-- `isSvid` accepts a token exactly when its claims can be read and: a header has a JWT-SVID algorithm;
-- a header has extra headers and in them no `typ`, or the `typ` JWT or JOSE; the subject is a SPIFFE
-- ID; there is an audience; and the expiry is set and not the zero time.
pub is_svid_iff :
    (lib : JoseLib) (tok : Token)
    → (is_svid lib tok ≡ ok (true, [])) ↔ ((c : Claims) × (tok.claims ≡ ok c) × IsJwtSvid lib tok c)
unfolding is_svid
is_svid_iff lib tok = (
  λ h. elim (Result-cases tok.claims) [
    | inr (f, e) ↦ cc (rw (e, is_svid) at h)
    | inl (c, e) ↦ (c, e, Passes-IsJwtSvid lib tok c ((is_svid_iff_Passes lib tok c e).0 h))
  ],
  λ (c, e, s). (is_svid_iff_Passes lib tok c e).1 (IsJwtSvid-Passes lib tok c s),
)

-- No header has extra headers at all.
abbrev pub HasNoExtra : List Header → Type 0
HasNoExtra [] = Unit
HasNoExtra (h ∷ hs) = (h.extra_typ ≡ none) × HasNoExtra hs

not-HasGoodTyp : (hs : List Header) → HasNoExtra hs → ¬ Some HasGoodTyp hs
not-HasGoodTyp [] n k = k
not-HasGoodTyp (h ∷ hs) (e, n) (inl good) = ground arith
not-HasGoodTyp (h ∷ hs) (e, n) (inr later) = not-HasGoodTyp hs n later

-- `isSvid` never accepts a token whose headers all have no extra headers, and so no `typ` at all.
missing_typ_refused :
    (lib : JoseLib) (tok : Token) → HasNoExtra tok.headers → is_svid lib tok ≢ ok (true, [])
missing_typ_refused lib tok n h =
    let (c, e, s) = (is_svid_iff lib tok).0 h in not-HasGoodTyp tok.headers n s.typed
