-- ===== src/WlApi/TrustDomain/Endpoint.antt =====
-- What the federation endpoint answers, and what a trust domain has after the start of `Run`.
use spiffecli.Prelude.{
  ◌≡◌, ◌≢◌, ◌↔◌, ◌⊎◌, refl, subst, inl, inr, true, false, not, ◌||◌, Bool-cases, List, [], ◌∷◌,
  ◌++◌, Result, Result-cases, ok, err, String, ◌=ₛ◌, =ₛ_iff, Bytes, All, arith,
}
use spiffecli.WlApi.TrustDomain.{TrustDomain}
use spiffecli.WlApi.TrustDomain.Bundles.{
  BundleLib, bundle, bad_request, not_found, served, render_bundle, find_and_render, serve_http,
}

module _ {B : Type 0} (lib : BundleLib B) (split : String → String × String) where
  render_bundle-served :
      (r : Result String B) (bytes : Bytes)
      → render_bundle lib split r ≡ served bytes
      → (b : B) × (r ≡ ok b) × (lib.marshal b ≡ ok bytes)
  unfolding render_bundle
  render_bundle-served (err e) bytes h = cc
  render_bundle-served (ok b) bytes h = elim (Result-cases (lib.marshal b)) [
    | inl (out, made) ↦
        let same : served out ≡ served bytes = rw (made, render_bundle) at h in
        let eq : out ≡ bytes = ground (arith, same) in
        (b, refl, subst (λ x. lib.marshal b ≡ ok x) eq made)
    | inr (e, made) ↦ cc (rw (made, render_bundle) at h)
  ]

  render_bundle-found : (r : Result String B) → render_bundle lib split r ≢ not_found
  unfolding render_bundle
  render_bundle-found (err e) h = cc
  render_bundle-found (ok b) h = elim (Result-cases (lib.marshal b)) [
    | inl (out, made) ↦ cc (rw (made, render_bundle) at h)
    | inr (e, made) ↦ cc (rw (made, render_bundle) at h)
  ]

  render_bundle-good : (r : Result String B) → render_bundle lib split r ≢ bad_request
  unfolding render_bundle
  render_bundle-good (err e) h = cc
  render_bundle-good (ok b) h = elim (Result-cases (lib.marshal b)) [
    | inl (out, made) ↦ cc (rw (made, render_bundle) at h)
    | inr (e, made) ↦ cc (rw (made, render_bundle) at h)
  ]

  -- The first trust domain of a name, whose bundle the bytes are.
  pub record IsFirst (tds : List TrustDomain) (name : String) (bytes : Bytes) : Type 0 where
    pub before : List TrustDomain
    pub td : TrustDomain
    pub after : List TrustDomain
    pub bundle_of : B
    pub listed : tds ≡ before ++ td ∷ after
    pub first : All (λ t. t.config.name ≢ name) before
    pub named : td.config.name ≡ name
    pub built : bundle lib td ≡ ok bundle_of
    pub marshaled : lib.marshal bundle_of ≡ ok bytes

  differs : (s t : String) → (s =ₛ t) ≡ false → s ≢ t
  differs s t h e = cc ((=ₛ_iff s t).1 e, h)

  find_and_render-served :
      (tds : List TrustDomain) (name : String) (bytes : Bytes)
      → find_and_render lib split tds name ≡ served bytes
      → IsFirst tds name bytes
  unfolding find_and_render
  find_and_render-served [] name bytes h = cc
  find_and_render-served (td ∷ tds) name bytes h = elim (Bool-cases (td.config.name =ₛ name)) [
    | inl same ↦
        let (b, built, marshaled) =
          render_bundle-served (bundle lib td) bytes (rw (same, find_and_render) at h) in
        record {
          before = [];
          td = td;
          after = tds;
          bundle_of = b;
          listed = refl;
          first = tt;
          named = (=ₛ_iff td.config.name name).0 same;
          built = built;
          marshaled = marshaled;
        }
    | inr other ↦
        let f = find_and_render-served tds name bytes (rw (other, find_and_render) at h) in
        record {
          before = td ∷ f.before;
          td = f.td;
          after = f.after;
          bundle_of = f.bundle_of;
          listed = cc (f.listed);
          first = (differs td.config.name name other, f.first);
          named = f.named;
          built = f.built;
          marshaled = f.marshaled;
        }
  ]

  find_and_render-missing :
      (tds : List TrustDomain) (name : String)
      → (find_and_render lib split tds name ≡ not_found) ↔ All (λ t. t.config.name ≢ name) tds
  unfolding find_and_render
  find_and_render-missing [] name = (λ h. tt, λ h. refl)
  find_and_render-missing (td ∷ tds) name =
      let rest = find_and_render-missing tds name in
      elim (Bool-cases (td.config.name =ₛ name)) [
        | inl same ↦ (
          λ h. absurd (render_bundle-found (bundle lib td) (rw (same, find_and_render) at h)),
          λ h. absurd (h.0 ((=ₛ_iff td.config.name name).0 same)),
        )
        | inr other ↦ (
          λ h. (differs td.config.name name other, rest.0 (rw (other, find_and_render) at h)),
          λ h. rw (other, find_and_render) (rest.1 h.1),
        )
      ]

  find_and_render-good :
      (tds : List TrustDomain) (name : String) → find_and_render lib split tds name ≢ bad_request
  unfolding find_and_render
  find_and_render-good [] name h = cc
  find_and_render-good (td ∷ tds) name h = elim (Bool-cases (td.config.name =ₛ name)) [
    | inl same ↦ render_bundle-good (bundle lib td) (rw (same, find_and_render) at h)
    | inr other ↦ find_and_render-good tds name (rw (other, find_and_render) at h)
  ]

  -- A request that the endpoint supports.
  abbrev pub IsSupported : String → String → Type 0
  IsSupported method path = (method ≡ "GET") × ((split path).0 ≡ "/") × ((split path).1 ≢ "")

  IsSupported-cases :
      (method path : String)
      → (IsSupported method path
          × ((not (method =ₛ "GET") || (not ((split path).0 =ₛ "/") || (split path).1 =ₛ ""))
              ≡ false))
        ⊎ ((IsSupported method path → ⊥)
            × ((not (method =ₛ "GET") || (not ((split path).0 =ₛ "/") || (split path).1 =ₛ ""))
                ≡ true))
  IsSupported-cases method path =
      let get = =ₛ_iff method "GET" in
      let dir = =ₛ_iff (split path).0 "/" in
      let name = =ₛ_iff (split path).1 "" in
      elim (Bool-cases (method =ₛ "GET")) [
        | inr g ↦ inr (λ s. cc (get.1 s.0, g), rw g refl)
        | inl g ↦ elim (Bool-cases ((split path).0 =ₛ "/")) [
          | inr d ↦ inr (λ s. cc (dir.1 s.1, d), rw (g, d) refl)
          | inl d ↦ elim (Bool-cases ((split path).1 =ₛ "")) [
            | inl n ↦ inr (λ s. s.2 (name.0 n), rw (g, d, n) refl)
            | inr n ↦ inl ((get.0 g, dir.0 d, λ e. cc (name.1 e, n)), rw (g, d, n) refl)
          ]
        ]
      ]

  -- `ServeHTTP` refuses exactly the requests that are not GET or whose path is not a slash and a name;
  -- it finds nothing exactly where no trust domain has the name; and what it serves is the marshalled
  -- bundle of the first trust domain of that name.
  pub serve_http_correct :
      (tds : List TrustDomain) (method path : String)
      → ((serve_http lib split tds method path ≡ bad_request) ↔ (IsSupported method path → ⊥))
        × ((serve_http lib split tds method path ≡ not_found)
            ↔ (IsSupported method path × All (λ t. t.config.name ≢ (split path).1) tds))
        × ((bytes : Bytes)
            → serve_http lib split tds method path ≡ served bytes
            → IsSupported method path × IsFirst tds (split path).1 bytes)
  unfolding serve_http
  serve_http_correct tds method path = elim (IsSupported-cases method path) [
    | inr (not_supported, test) ↦ (
      (λ h. not_supported, λ h. rw (test, serve_http) refl),
      (λ h. cc (rw (test, serve_http) at h), λ h. absurd (not_supported h.0)),
      λ bytes h. cc (rw (test, serve_http) at h),
    )
    | inl (supported, test) ↦
        let name = (split path).1 in
        (
          (
            λ h. absurd (find_and_render-good tds name (rw (test, serve_http) at h)),
            λ h. absurd (h supported),
          ),
          (
            λ h. (supported, (find_and_render-missing tds name).0 (rw (test, serve_http) at h)),
            λ h. rw (test, serve_http) ((find_and_render-missing tds name).1 h.1),
          ),
          λ bytes h.
              (supported, find_and_render-served tds name bytes (rw (test, serve_http) at h)),
        )
  ]
