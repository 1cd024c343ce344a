-- ===== src/Bundle/Locations.antt =====
-- Which source a location names.
use spiffecli.Prelude.{
  ◌≡◌, ◌⊎◌, ◌↔◌, ◌∙◌, sym, err, refl, inl, inr, true, not, ◌&&◌, Bool-cases, [], ◌∷◌, Result,
  Result-cases, ok, String, ◌=ₛ◌, =ₛ_iff, one_of_iff, In, subst,
}
use spiffecli.Bundle.{
  Url, JwkSource, file, http_url, BundleError, PathLib, is_http, dot_path, file_of, source_of,
  new_jwk_source,
}

-- A file name that is none of these.
abbrev pub IsFileName : String → Type 0
IsFileName f = In f ("" ∷ "." ∷ ".." ∷ []) → ⊥

module _ (lib : PathLib) where
  file_of-file :
      (path cleaned f : String)
      → file_of lib path cleaned ≡ ok (file f)
      → IsFileName f × (f ≡ cleaned)
  unfolding file_of
  file_of-file path cleaned f h = elim (Bool-cases (dot_path lib cleaned)) [
    | inl dots ↦ cc (rw (dots, file_of) at h)
    | inr plain ↦
        let made : ◌≡◌ {A = Result BundleError JwkSource} (ok (file cleaned)) (ok (file f)) =
          rw (plain, file_of) at h in
        let same : cleaned ≡ f = cc in
        (
          subst IsFileName same (λ m. cc ((one_of_iff cleaned ("" ∷ "." ∷ ".." ∷ [])).1 m, plain)),
          cc,
        )
  ]

  file_of-http : (path cleaned : String) (u : Url) → file_of lib path cleaned ≡ ok (http_url u) → ⊥
  unfolding file_of
  file_of-http path cleaned u h = elim (Bool-cases (dot_path lib cleaned)) [
    | inl dots ↦ cc (rw (dots, file_of) at h)
    | inr plain ↦ cc (rw (plain, file_of) at h)
  ]

  -- The name comes from the location where this does not parse or has no scheme, and from the path of
  -- a `file:` URL; no other URL names a file.
  abbrev pub IsFileOf : String → String → Type 0
  IsFileOf path f =
      ((e : String) × (lib.parse path ≡ err e) × (f ≡ lib.clean path))
      ⊎ ((u : Url) × (lib.parse path ≡ ok u)
          × ((u.scheme ≡ "") × (f ≡ lib.clean path) ⊎ (u.scheme ≡ "file") × (f ≡ lib.clean u.path)))

  http_scheme : (s : String) → is_http s ≡ true → (not (s =ₛ "") && not (s =ₛ "file")) ≡ true
  http_scheme s h = elim (Bool-cases (s =ₛ "")) [
    | inl e ↦ cc (rw ((=ₛ_iff s "").0 e) at h)
    | inr a ↦ elim (Bool-cases (s =ₛ "file")) [
      | inl e ↦ cc (rw ((=ₛ_iff s "file").0 e) at h)
      | inr b ↦ rw (a, b) refl
    ]
  ]

  source_of-http :
      (path : String) (u : Url)
      → (is_http u.scheme ≡ true → source_of lib path u ≡ ok (http_url u))
        × ((v : Url) → source_of lib path u ≡ ok (http_url v) → (u ≡ v) × (is_http u.scheme ≡ true))
  unfolding source_of
  source_of-http path u = (
    λ h. rw (http_scheme u.scheme h, h, source_of) refl,
    λ v h. elim (Bool-cases (not (u.scheme =ₛ "") && not (u.scheme =ₛ "file"))) [
      | inl named ↦ elim (Bool-cases (is_http u.scheme)) [
        | inl http ↦
            let made : ◌≡◌ {A = Result BundleError JwkSource} (ok (http_url u)) (ok (http_url v)) =
              rw (named, http, source_of) at h in
            (cc, http)
        | inr other ↦ cc (rw (named, other, source_of) at h)
      ]
      | inr unnamed ↦ elim (Bool-cases (u.scheme =ₛ "file")) [
        | inl is_file ↦
            absurd (file_of-http path (lib.clean u.path) v (rw (unnamed, is_file, source_of) at h))
        | inr bare ↦
            absurd (file_of-http path (lib.clean path) v (rw (unnamed, bare, source_of) at h))
      ]
    ],
  )

  file_of-clean :
      (path cleaned : String) → IsFileName cleaned → file_of lib path cleaned ≡ ok (file cleaned)
  unfolding file_of
  file_of-clean path cleaned h = elim (Bool-cases (dot_path lib cleaned)) [
    | inl dots ↦ absurd (h ((one_of_iff cleaned ("" ∷ "." ∷ ".." ∷ [])).0 dots))
    | inr plain ↦ rw (plain, file_of) refl
  ]

  source_of-file :
      (path f : String) (u : Url)
      → lib.parse path ≡ ok u
      → source_of lib path u ≡ ok (file f)
      → IsFileName f × IsFileOf path f
  unfolding source_of
  source_of-file path f u parsed h = elim (Bool-cases (u.scheme =ₛ "")) [
    | inl bare ↦
        let none_given : u.scheme ≡ "" = (=ₛ_iff u.scheme "").0 bare in
        let h1 : file_of lib path (lib.clean path) ≡ ok (file f) =
          rw (none_given, source_of) at h in
        let (name, same) = file_of-file path (lib.clean path) f h1 in
        (name, inr (u, parsed, inl (none_given, same)))
    | inr named ↦ elim (Bool-cases (u.scheme =ₛ "file")) [
      | inl is_file ↦
          let (name, same) =
            file_of-file path (lib.clean u.path) f (rw (named, is_file, source_of) at h) in
          (name, inr (u, parsed, inr ((=ₛ_iff u.scheme "file").0 is_file, same)))
      | inr other ↦ elim (Bool-cases (is_http u.scheme)) [
        | inl http ↦ cc (rw (named, other, http, source_of) at h)
        | inr unknown ↦ cc (rw (named, other, unknown, source_of) at h)
      ]
    ]
  ]

  file-source_of :
      (path f : String) (u : Url)
      → IsFileName f
      → ((u.scheme ≡ "") × (f ≡ lib.clean path)) ⊎ ((u.scheme ≡ "file") × (f ≡ lib.clean u.path))
      → source_of lib path u ≡ ok (file f)
  unfolding source_of
  file-source_of path f u name (inl (bare, same)) =
      rw (bare, same, source_of) (file_of-clean path (lib.clean path) (subst IsFileName same name))
  file-source_of path f u name (inr (is_file, same)) =
      rw (is_file, same, source_of)
        (file_of-clean path (lib.clean u.path) (subst IsFileName same name))

  -- `NewJwkSource` takes a location as a URL to fetch exactly where it parses to one whose scheme
  -- starts with http, whatever follows these letters. It takes it as a file exactly where the name is
  -- not empty, `.` or `..`: the name is the cleaned location where this does not parse or has no scheme,
  -- and the cleaned path of a `file:` URL. Every other location is refused.
  pub new_jwk_source_correct :
      (path : String)
      → ((u : Url)
          → (new_jwk_source lib path ≡ ok (http_url u))
            ↔ ((lib.parse path ≡ ok u) × (is_http u.scheme ≡ true)))
        × ((f : String)
            → (new_jwk_source lib path ≡ ok (file f)) ↔ (IsFileName f × IsFileOf path f))
  unfolding new_jwk_source
  new_jwk_source_correct path = elim (Result-cases (lib.parse path)) [
    | inl (u, parsed) ↦ (
      λ v. (
        λ h.
            let (eq, http) = (source_of-http path u).1 v (rw (parsed, new_jwk_source) at h) in
            (cc (parsed, eq), http_of u v eq http),
        λ (other, http).
            let eq = url_inj u v (sym parsed ∙ other) in
            rw (parsed, new_jwk_source)
              (subst (λ x. source_of lib path x ≡ ok (http_url v)) (sym eq)
                ((source_of-http path v).0 http)),
      ),
      λ f. (
        λ h. source_of-file path f u parsed (rw (parsed, new_jwk_source) at h),
        λ (name, of). elim of [
          | inl (e, bad, _) ↦ cc (parsed, bad)
          | inr (v, other, named) ↦
              let eq = url_inj u v (sym parsed ∙ other) in
              rw (parsed, new_jwk_source)
                (subst (λ x. source_of lib path x ≡ ok (file f)) (sym eq)
                  (file-source_of path f v name named))
        ],
      ),
    )
    | inr (e, bad) ↦ (
      λ v. (
        λ h. absurd (file_of-http path (lib.clean path) v (rw (bad, new_jwk_source) at h)),
        λ (other, http). cc (bad, other),
      ),
      λ f. (
        λ h.
            let (name, same) =
              file_of-file path (lib.clean path) f (rw (bad, new_jwk_source) at h) in
            (name, inl (e, bad, same)),
        λ (name, of). elim of [
          | inl (_, _, same) ↦
              rw (bad, same, new_jwk_source)
                (file_of-clean path (lib.clean path) (subst IsFileName same name))
          | inr (v, other, _) ↦ cc (bad, other)
        ],
      ),
    )
  ]
    where
      http_of : (u v : Url) → u ≡ v → is_http u.scheme ≡ true → is_http v.scheme ≡ true
      http_of u v eq h = subst (λ x. is_http x.scheme ≡ true) eq h

      url_inj : (u v : Url) → ◌≡◌ {A = Result String Url} (ok u) (ok v) → u ≡ v
      url_inj u v h = cc
