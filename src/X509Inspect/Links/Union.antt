-- ===== src/X509Inspect/Links/Union.antt =====
-- `unionCerts` gives each fingerprint once, drops none and invents none.
use spiffecli.Prelude.{
  ℕ, ◌≡◌, ◌∙◌, refl, sym, ◌⊎◌, inl, inr, ◌||◌, List, [], ◌∷◌, ◌++◌, map, arith, In, mem, Nodup,
  Nodup-concat, mem-append, In-append_cases, Bool-cases, mem_iff, ==_iff, ◌==◌,
}
use mathlib.Core.List.{map-append}
use spiffecli.Cert.{Cert, X509Lib}
use spiffecli.X509Inspect.Links.{UnionState, cert_fingerprint, union_step, union_loop, union_certs}

module _ (lib : X509Lib) where
  abbrev pub fingerprints : List Cert → List ℕ
  fingerprints = map (cert_fingerprint lib)

  -- `seen` holds the fingerprints of `result`, each once.
  pub record IsTracked (s : UnionState) : Type 0 where
    pub tracked : (f : ℕ) → mem f s.seen ≡ mem f (fingerprints s.result)
    pub once : Nodup (fingerprints s.result)

  union_step-IsTracked : (s : UnionState) (c : Cert) → IsTracked s → IsTracked (union_step lib s c)
  unfolding union_step
  union_step-IsTracked s c h = elim (Bool-cases (mem (cert_fingerprint lib c) s.seen)) [
    | inl old ↦ rw old h
    | inr new ↦ rw new (record {
      tracked = λ f. rw (map-append (cert_fingerprint lib) s.result (c ∷ [])) (
          ground (
            arith,
            h.tracked f,
            mem-append f (fingerprints s.result) (cert_fingerprint lib c ∷ []),
          ));
      once = rw (map-append (cert_fingerprint lib) s.result (c ∷ [])) (
          Nodup-concat (fingerprints s.result) (cert_fingerprint lib c) h.once
            (sym (h.tracked (cert_fingerprint lib c)) ∙ new));
    })
  ]

  union_loop-Nodup :
      (s : UnionState) (cs : List Cert) → IsTracked s → Nodup (fingerprints (union_loop lib s cs))
  unfolding union_loop
  union_loop-Nodup s [] h = h.once
  union_loop-Nodup s (c ∷ cs) h =
      union_loop-Nodup (union_step lib s c) cs (union_step-IsTracked s c h)

  mem-union_step :
      (f : ℕ) (s : UnionState) (c : Cert)
      → IsTracked s
      → mem f (fingerprints (union_step lib s c).result)
        ≡ (mem f (fingerprints s.result) || f == cert_fingerprint lib c)
  unfolding union_step
  mem-union_step f s c h = elim (Bool-cases (mem (cert_fingerprint lib c) s.seen)) [
    | inl old ↦ rw old (
        ground (
          arith,
          h.tracked (cert_fingerprint lib c),
          mem_iff f (fingerprints s.result),
          ==_iff f (cert_fingerprint lib c),
        ))
    | inr new ↦
        rw (new, map-append (cert_fingerprint lib) s.result (c ∷ []))
          (ground (arith, mem-append f (fingerprints s.result) (cert_fingerprint lib c ∷ [])))
  ]

  mem-union_loop :
      (f : ℕ) (s : UnionState) (cs : List Cert)
      → IsTracked s
      → mem f (fingerprints (union_loop lib s cs))
        ≡ (mem f (fingerprints s.result) || mem f (fingerprints cs))
  unfolding union_loop
  mem-union_loop f s [] h = ground arith
  mem-union_loop f s (c ∷ cs) h = ground (
    arith,
    mem-union_loop f (union_step lib s c) cs (union_step-IsTracked s c h),
    mem-union_step f s c h,
  )

  In-union_loop :
      (a : Cert) (s : UnionState) (cs : List Cert)
      → In a (union_loop lib s cs)
      → In a s.result ⊎ In a cs
  unfolding union_loop union_step
  In-union_loop a s [] h = inl h
  In-union_loop a s (c ∷ cs) h = elim (In-union_loop a (union_step lib s c) cs h) [
    | inr later ↦ inr (inr later)
    | inl now ↦ elim (Bool-cases (mem (cert_fingerprint lib c) s.seen)) [
      | inl old ↦ inl (rw (old, union_step) at now)
      | inr new ↦ elim (In-append_cases a s.result (c ∷ []) (rw (new, union_step) at now)) [
        | inl before ↦ inl before
        | inr (inl e) ↦ inr (inl e)
        | inr (inr none_left) ↦ absurd none_left
      ]
    ]
  ]

  abbrev start : UnionState
  start = record { seen = []; result = [] }

  start-IsTracked : IsTracked start
  start-IsTracked = record { tracked = λ f. refl; once = tt }

  -- No two certificates of the union share a fingerprint.
  pub union_certs-Nodup : (a b : List Cert) → Nodup (fingerprints (union_certs lib a b))
  unfolding union_certs
  union_certs-Nodup a b = union_loop-Nodup start (a ++ b) start-IsTracked

  pub In-union_certs : (c : Cert) (a b : List Cert) → In c (union_certs lib a b) → In c (a ++ b)
  unfolding union_certs
  In-union_certs c a b h = elim (In-union_loop c start (a ++ b) h) [
    | inl nothing ↦ absurd nothing
    | inr given ↦ given
  ]

  pub mem-union_certs :
      (f : ℕ) (a b : List Cert)
      → mem f (fingerprints (union_certs lib a b))
        ≡ (mem f (fingerprints a) || mem f (fingerprints b))
  unfolding union_certs
  mem-union_certs f a b =
      mem-union_loop f start (a ++ b) start-IsTracked
      ∙ (rw (map-append (cert_fingerprint lib) a b)
          (mem-append f (fingerprints a) (fingerprints b)))

  -- The union is exact: its fingerprints are pairwise different, they are those of the two
  -- arguments, and each of its certificates is one of theirs.
  pub union_certs_exact :
      (a b : List Cert)
      → Nodup (fingerprints (union_certs lib a b))
        × ((f : ℕ)
            → mem f (fingerprints (union_certs lib a b))
              ≡ (mem f (fingerprints a) || mem f (fingerprints b)))
        × ((c : Cert) → In c (union_certs lib a b) → In c (a ++ b))
  union_certs_exact a b =
      (union_certs-Nodup a b, λ f. mem-union_certs f a b, λ c. In-union_certs c a b)
