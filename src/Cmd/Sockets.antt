-- ===== src/Cmd/Sockets.antt =====
-- The commands dial local sockets only.
use spiffecli.Prelude.{
  ◌≡◌, ◌≢◌, ◌⊎◌, refl, inl, inr, sym, ◌∙◌, Bool-cases, true, not, ◌&&◌, ◌||◌, Option-cases, [], ◌∷◌,
  ◌++◌, Result, ok, ◌>>=◌, >>=-eq-ok, guard, guard-eq-ok, map_err, map_err-eq-ok, String, ◌=ₛ◌,
  =ₛ_iff, Bytes, is_empty, codes, has_prefix, if◌then◌else◌, arith, subst, ap,
}
use spiffecli.Cmd.{
  IsLocal, SocketError, before_first, unix_prefix, npipe_prefix, absolute, refused_or_absolute,
  ensure_unix_socket_address, ensure_unix_socket_address_correct,
}
use spiffecli.Cmd.Commands.{
  CommandError, no_socket, no_socket_or_bundle, bad_socket, jwt_failed, x509_failed, Socket, value,
  require_socket, socket_address, get_jwt_svid, get_x509_svid, verify_client,
  verify_jwt_svid_command, verify_x509_svid_command,
}
use spiffecli.Bundle.Client.{Written}
use spiffecli.JwtSvid.Client.{JwtSvidClient, JwtClientLib, verify_jwt_svid, request_jwt_svid}
use spiffecli.X509Svid.{
  X509SvidClient, X509ClientLib, X509ClientError, Store, request_x509_svid, verify_x509_svid,
}

ok_injective : (a b : Bytes) → ◌≡◌ {A = Result SocketError Bytes} (ok a) (ok b) → a ≡ b
ok_injective a b h = ground arith

-- A socket that is given does not become an empty address.
ensure-nonempty :
    (abs : Bytes → Result Bytes Bytes) (path : Bytes)
    → path ≢ []
    → ensure_unix_socket_address abs path ≢ ok []
unfolding ensure_unix_socket_address refused_or_absolute
ensure-nonempty abs [] h made = h refl
ensure-nonempty abs (c ∷ p) h made =
    elim (Bool-cases (has_prefix (c ∷ p) unix_prefix || has_prefix (c ∷ p) npipe_prefix)) [
      | inl good ↦
          let kept = ap (λ b. if b then ok (c ∷ p) else refused_or_absolute abs (c ∷ p)) good in
          h (ok_injective (c ∷ p) [] (sym kept ∙ made))
      | inr other ↦
          let kept = ap (λ b. if b then ok (c ∷ p) else refused_or_absolute abs (c ∷ p)) other in
          absolute-nonempty (c ∷ p) (sym kept ∙ made)
    ]
  where
    absolute-nonempty : (q : Bytes) → refused_or_absolute abs q ≢ ok []
    absolute-nonempty q k = elim (Option-cases (before_first q (codes "://"))) [
      | inr (front, e) ↦ cc (rw (e, refused_or_absolute) at k)
      | inl e ↦
          let same : ◌≡◌ {A = Result SocketError Bytes} (ok (unix_prefix ++ absolute abs q))
              (ok []) =
            rw (e, refused_or_absolute) at k in
          let nothing = ok_injective (unix_prefix ++ absolute abs q) [] same in cc
    ]

module _ (abs : Bytes → Result Bytes Bytes) (text : Bytes → String) where
  -- A text that some local address has, which the flag or the variable gives.
  abbrev pub Dials : Socket → (String → Type 0) → Type 0
  Dials s P =
      (address : Bytes) × (address ≢ [])
      × (ensure_unix_socket_address abs (value s) ≡ ok address)
      × IsLocal address
      × P (text address)

  dialed :
      (s : Socket) (u : Unit {0}) (socket : String)
      → require_socket s ≡ ok u
      → socket_address abs text s ≡ ok socket
      → Dials s (λ t. t ≡ socket)
  unfolding require_socket socket_address
  dialed s u socket required made =
      let (address, ensured, same) =
        >>=-eq-ok (map_err bad_socket (ensure_unix_socket_address abs (value s))) _ made in
      let ensured' =
        map_err-eq-ok bad_socket (ensure_unix_socket_address abs (value s)) address ensured in
      let set = guard-eq-ok (not (is_empty (value s))) no_socket u required in
      let eq : ◌≡◌ {A = Result CommandError String} (ok (text address)) (ok socket) = same in
      (
        address,
        λ e.
            ensure-nonempty abs (value s) (λ n. cc (rw n at set))
              (subst (λ a. ensure_unix_socket_address abs (value s) ≡ ok a) e ensured'),
        ensured',
        (ensure_unix_socket_address_correct abs (value s)).0 address ensured',
        cc,
      )

  -- The result of a command is that of its client at such an address.
  moved :
      (s : Socket) (P : String → Type 0) (socket : String)
      → Dials s (λ t. t ≡ socket)
      → P socket
      → Dials s P
  moved s P socket (address, full, ensured, local, same) p =
      (address, full, ensured, local, subst P (cc (same)) p)

  -- What `get jwt-svid`, `get x509-svid`, `verify x509-svid` and, without a bundle, `verify
  -- jwt-svid` return from their clients, is what the client returns at the address made of the
  -- given socket; this address is local and not empty, so it is a Unix socket or a named pipe. With
  -- a bundle `verify jwt-svid` leaves the client as it is. `abs` makes a path absolute, and `text`
  -- turns bytes into a string.
  pub commands-IsLocal :
      (W V : Type 0) (jwt : JwtClientLib W V) (x509 : X509ClientLib W V) (s : Socket)
      → ((c : JwtSvidClient) (token : String) (out : Written)
          → get_jwt_svid abs text jwt s c token ≡ ok out
          → Dials s
              (λ t. request_jwt_svid jwt (record c { workload_api_socket = t }) token ≡ ok out))
        × ((c : X509SvidClient) (token : String) (store : Store)
              (out : Bytes × Store × Result X509ClientError (Unit {0}))
            → get_x509_svid abs text x509 s c token store ≡ ok out
            → Dials s (λ t.
              request_x509_svid x509 (record c { workload_api_socket = t }) token store ≡ out))
        × ((c : X509SvidClient)
            → verify_x509_svid_command abs text x509 s c ≡ ok tt
            → Dials s (λ t. verify_x509_svid x509 (record c { workload_api_socket = t }) ≡ ok tt))
        × ((c : JwtSvidClient)
            → verify_jwt_svid_command abs text jwt s c ≡ ok tt
            → ((c.bundle_source ≢ "") × (verify_jwt_svid jwt c ≡ ok tt))
              ⊎ Dials s (λ t. verify_jwt_svid jwt (record c { workload_api_socket = t }) ≡ ok tt))
  unfolding get_jwt_svid get_x509_svid verify_x509_svid_command verify_jwt_svid_command
      verify_client require_socket
  commands-IsLocal W V jwt x509 s = (
    λ c token out h.
        let (u, required, h1) = >>=-eq-ok (require_socket s) _ h in
        let (socket, made, h2) = >>=-eq-ok (socket_address abs text s) _ h1 in
        moved s (λ t. request_jwt_svid jwt (record c { workload_api_socket = t }) token ≡ ok out)
          socket (dialed s u socket required made) (map_err-eq-ok jwt_failed _ out h2),
    λ c token store out h.
        let (u, required, h1) = >>=-eq-ok (require_socket s) _ h in
        let (socket, made, h2) = >>=-eq-ok (socket_address abs text s) _ h1 in
        moved s
          (λ t. request_x509_svid x509 (record c { workload_api_socket = t }) token store ≡ out)
          socket (dialed s u socket required made) (ok_inj _ out h2),
    λ c h.
        let (u, required, h1) = >>=-eq-ok (require_socket s) _ h in
        let (socket, made, h2) = >>=-eq-ok (socket_address abs text s) _ h1 in
        moved s (λ t. verify_x509_svid x509 (record c { workload_api_socket = t }) ≡ ok tt) socket
          (dialed s u socket required made) (map_err-eq-ok x509_failed _ tt h2),
    λ c h.
        let (u, given, h1) =
          >>=-eq-ok (guard (not (is_empty (value s) && c.bundle_source =ₛ "")) no_socket_or_bundle)
            _ h in
        let (client, chosen, h2) = >>=-eq-ok (verify_client abs text s c) _ h1 in
        let verified = map_err-eq-ok jwt_failed (verify_jwt_svid jwt client) tt h2 in
        let passed =
          guard-eq-ok (not (is_empty (value s) && c.bundle_source =ₛ "")) no_socket_or_bundle u
            given in
        elim (Bool-cases (c.bundle_source =ₛ "")) [
          | inr set ↦
              let same : ◌≡◌ {A = Result CommandError JwtSvidClient} (ok c) (ok client) =
                rw (set, verify_client) at chosen in
              inl (
                λ e. cc ((=ₛ_iff c.bundle_source "").1 e, set),
                subst (λ x. verify_jwt_svid jwt x ≡ ok tt) (client_inj client c (sym same))
                    verified,
              )
          | inl unset ↦
              let h3 : (socket_address abs text s >>= λ a.
              ok (record c { workload_api_socket = a }))
                  ≡ ok client =
                rw (unset, verify_client) at chosen in
              let (socket, made, same) = >>=-eq-ok (socket_address abs text s) _ h3 in
              let required : require_socket s ≡ ok tt = given_socket (rw unset at passed) in
              inr (
                moved s (λ t. verify_jwt_svid jwt (record c { workload_api_socket = t }) ≡ ok tt)
                  socket (dialed s tt socket required made)
                  (subst (λ x. verify_jwt_svid jwt x ≡ ok tt) (client_inj client _ (sym same))
                    verified))
        ],
  )
    where
      ok_inj :
          (a b : Bytes × Store × Result X509ClientError (Unit {0}))
          → ◌≡◌ {A = Result CommandError (Bytes × Store × Result X509ClientError (Unit {0}))}
              (ok a)
              (ok b)
          → a ≡ b
      ok_inj a b e = cc

      client_inj :
          (a b : JwtSvidClient) → ◌≡◌ {A = Result CommandError JwtSvidClient} (ok a) (ok b) → a ≡ b
      client_inj a b e = cc

      given_socket : not (is_empty (value s) && true) ≡ true → require_socket s ≡ ok tt
      given_socket h = elim (Bool-cases (is_empty (value s))) [
        | inl e ↦ cc (rw e at h)
        | inr e ↦ rw (e, require_socket) refl
      ]
