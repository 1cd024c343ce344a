-- ===== src/X509Svid/Outputs.antt =====
-- The names of the two files of an SVID, and what stands in them.
use spiffecli.Prelude.{
  ℕ, ◌+◌, ◌==◌, ◌≡◌, ◌≢◌, subst, refl, sym, ap, inl, inr, true, false, Bool-cases, Option, none,
  some, [], ◌∷◌, ◌++◌, Result-cases, ok, err, ◌=ₛ◌, =ₛ_iff, Bytes, bytes_equal, bytes_equal_iff,
  codes, length, All, arith, ◌⊎◌, map_err-eq-ok,
}
use spiffecli.X509Svid.{
  split_n2, dot, with_suffix, private_key_filename, X509SvidClient, X509ClientError, not_marshaled,
  Store, read_store, X509ClientLib, marshal_svid, write_files, output_svid,
}

-- A name without a dot.
abbrev pub IsBare : Bytes → Type 0
IsBare s = All (λ c. c ≢ dot) s

split_n2-bare : (s : Bytes) → IsBare s → split_n2 dot s ≡ (s, none)
unfolding split_n2
split_n2-bare [] h = refl
split_n2-bare (c ∷ s) (p, h) = elim (Bool-cases (c == dot)) [
  | inl e ↦ absurd (p (ground (arith, e)))
  | inr e ↦ rw (e, split_n2-bare s h, split_n2) refl
]

split_n2-first : (s ext : Bytes) → IsBare s → split_n2 dot (s ++ dot ∷ ext) ≡ (s, some ext)
unfolding split_n2
split_n2-first [] ext h = refl
split_n2-first (c ∷ s) ext (p, h) = elim (Bool-cases (c == dot)) [
  | inl e ↦ absurd (p (ground (arith, e)))
  | inr e ↦ rw (e, split_n2-first s ext h, split_n2) refl
]

with_suffix-cons :
    (c : ℕ) (p : Bytes × Option Bytes) → with_suffix (c ∷ p.0, p.1) ≡ c ∷ with_suffix p
with_suffix-cons c (name, none) = refl
with_suffix-cons c (name, some ext) = refl

length-private_key_filename : (s : Bytes) → length (private_key_filename s) ≡ length s + 4
unfolding private_key_filename split_n2
length-private_key_filename [] = refl
length-private_key_filename (c ∷ s) = elim (Bool-cases (c == dot)) [
  | inl e ↦ rw (e, private_key_filename, split_n2) (omega arith)
  | inr e ↦
      let shorter = length-private_key_filename s in
      rw (e, private_key_filename, split_n2, with_suffix-cons c (split_n2 dot s))
        (omega (arith, shorter))
]

-- `privateKeyFilename` puts -key before the first dot of the whole name, also where this dot stands in
-- a directory or begins the name, and at the end where there is none. The name is never that of the
-- certificates.
pub private_key_filename_correct :
    (filename : Bytes)
    → (IsBare filename → private_key_filename filename ≡ filename ++ codes "-key")
      × ((name ext : Bytes)
          → IsBare name
          → filename ≡ name ++ dot ∷ ext
          → private_key_filename filename ≡ name ++ codes "-key." ++ ext)
      × (private_key_filename filename ≢ filename)
unfolding private_key_filename
private_key_filename_correct filename = (
  λ bare. rw (split_n2-bare filename bare, private_key_filename) refl,
  λ name ext bare e. rw (e, split_n2-first name ext bare, private_key_filename) refl,
  λ e. absurd (omega (arith, length-private_key_filename filename, ap length e)),
)

module _ {W V : Type 0} (lib : X509ClientLib W V) (c : X509SvidClient) where
  -- DER where the flag says der, else PEM.
  abbrev pub IsFormatted : V → Bytes → Bytes → Type 0
  IsFormatted svid cert private_key =
      ((c.format ≡ "der") × (lib.marshal_raw svid ≡ ok (cert, private_key)))
      ⊎ ((c.format ≢ "der") × (lib.marshal svid ≡ ok (cert, private_key)))

  marshal_svid-IsFormatted :
      (svid : V) (cert private_key : Bytes)
      → marshal_svid lib c svid ≡ ok (cert, private_key)
      → IsFormatted svid cert private_key
  unfolding marshal_svid
  marshal_svid-IsFormatted svid cert private_key h = elim (Bool-cases (c.format =ₛ "der")) [
    | inl der ↦ inl (
      (=ₛ_iff c.format "der").0 der,
      map_err-eq-ok not_marshaled (lib.marshal_raw svid) (cert, private_key)
          (rw (der, marshal_svid) at h),
    )
    | inr pem ↦ inr (
      λ e. cc ((=ₛ_iff c.format "der").1 e, pem),
      map_err-eq-ok not_marshaled (lib.marshal svid) (cert, private_key)
          (rw (pem, marshal_svid) at h),
    )
  ]

  -- The files after a call that was to write them.
  pub record IsSaved (svid : V) (before : Store) (printed : Bytes) (after : Store) : Type 0 where
    pub cert : Bytes
    pub private_key : Bytes
    pub formatted : IsFormatted svid cert private_key
    pub silent : printed ≡ []
    pub cert_file : read_store (codes c.filename) after ≡ some cert
    pub key_file : read_store (private_key_filename (codes c.filename)) after ≡ some private_key
    pub others :
        (name : Bytes)
        → name ≢ codes c.filename
        → name ≢ private_key_filename (codes c.filename)
        → read_store name after ≡ read_store name before

  differs : (a b : Bytes) → a ≢ b → bytes_equal a b ≡ false
  differs a b h = elim (Bool-cases (bytes_equal a b)) [
    | inl e ↦ absurd (h ((bytes_equal_iff a b).0 e))
    | inr e ↦ e
  ]

  same : (a : Bytes) → bytes_equal a a ≡ true
  same a = (bytes_equal_iff a a).1 refl

  -- The writes, when both succeed.
  written_files :
      (cert private_key : Bytes) (store : Store)
      → (write_files lib c cert private_key store).1 ≡ ok tt
      → (write_files lib c cert private_key store).0
        ≡ (codes c.filename, cert) ∷ (private_key_filename (codes c.filename), private_key) ∷ store
  unfolding write_files
  written_files cert private_key store h =
      elim (Result-cases (lib.write_file (private_key_filename (codes c.filename)))) [
        | inr (e, failed) ↦ cc (rw (failed, write_files) at h)
        | inl (u, key_ok) ↦ elim (Result-cases (lib.write_file (codes c.filename))) [
          | inr (e, failed) ↦ cc (rw (key_ok, failed, write_files) at h)
          | inl (v, cert_ok) ↦ rw (key_ok, cert_ok, write_files) refl
        ]
      ]

  saved :
      (svid : V) (cert private_key : Bytes) (store : Store)
      → marshal_svid lib c svid ≡ ok (cert, private_key)
      → IsSaved svid store [] (
          (codes c.filename, cert) ∷ (private_key_filename (codes c.filename), private_key) ∷ store)
  saved svid cert private_key store marshaled =
      let name = codes c.filename in
      let key_name = private_key_filename name in
      let other = (private_key_filename_correct name).2 in
      record {
        cert = cert;
        private_key = private_key;
        formatted = marshal_svid-IsFormatted svid cert private_key marshaled;
        silent = refl;
        cert_file = rw (same name) refl;
        key_file = rw (differs key_name name other, same key_name) refl;
        others = λ n a b. rw (differs n name a, differs n key_name b) refl;
      }

  output_svid-marshaled :
      (svid : V) (cert private_key : Bytes) (store : Store)
      → c.filename ≢ ""
      → marshal_svid lib c svid ≡ ok (cert, private_key)
      → output_svid lib c svid store ≡ (
        [],
        (write_files lib c cert private_key store).0,
        (write_files lib c cert private_key store).1,
      )
  unfolding output_svid
  output_svid-marshaled svid cert private_key store named marshaled =
      elim (Bool-cases (c.filename =ₛ "")) [
        | inl empty ↦ absurd (named ((=ₛ_iff c.filename "").0 empty))
        | inr full ↦ rw (marshaled, full, output_svid) refl
      ]

  output_svid-failed :
      (svid : V) (e : X509ClientError) (store : Store)
      → marshal_svid lib c svid ≡ err e
      → (output_svid lib c svid store).2 ≡ err e
  unfolding output_svid
  output_svid-failed svid e store failed = rw (failed, output_svid) refl

  -- When `outputSVID` with a file name succeeds it prints nothing, and the file of that name holds the
  -- certificates and the file of `privateKeyFilename` the private key: as `MarshalRaw` gives both where
  -- the format is der, else as `Marshal` gives both; no other file has changed.
  pub output_svid-IsSaved :
      (svid : V) (store : Store)
      → c.filename ≢ ""
      → (output_svid lib c svid store).2 ≡ ok tt
      → IsSaved svid store (output_svid lib c svid store).0 (output_svid lib c svid store).1
  output_svid-IsSaved svid store named h = elim (Result-cases (marshal_svid lib c svid)) [
    | inr (e, failed) ↦ cc (output_svid-failed svid e store failed, h)
    | inl (pair, marshaled) ↦
        let (cert, private_key) = pair in
        let out = output_svid-marshaled svid cert private_key store named marshaled in
        subst (λ r. r.2 ≡ ok tt → IsSaved svid store r.0 r.1) (sym out)
          (λ w.
            subst (IsSaved svid store []) (sym (written_files cert private_key store w))
              (saved svid cert private_key store marshaled))
          h
  ]
