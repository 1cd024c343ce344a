-- ===== src/JwtSvid/Requests.antt =====
-- What a verified token and a requested SVID have passed.
use spiffecli.Prelude.{
  ◌≡◌, ◌≢◌, ◌⊎◌, refl, inl, inr, true, false, not, ◌&&◌, Bool-cases, none, some, List, [], ◌∷◌,
  ◌++◌, Result, ok, ◌>>=◌, >>=-eq-ok, guard, guard-eq-ok, map_err, map_err-eq-ok, String, ◌=ₛ◌,
  =ₛ_iff, Bytes, is_empty, arith,
}
use spiffecli.Bundle.{JwkSource, new_jwk_source}
use spiffecli.Bundle.Client.{Written, printed, wrote_file}
use spiffecli.JwtSvid.Client.{
  JwtSvidClient, JwtClientError, no_audiences, no_trust_domain, bad_bundle, no_source, not_opened,
  not_valid, not_fetched, not_decoded, not_written, Scan, scanned, Source, jwk, workload_api,
  JwtClientLib, validate_options, create_params, first_line, get_token, get_bundle_source,
  verify_jwt_svid, decode_json, write_svid, output_svid, fetch_with, request_jwt_svid,
}

module _ {W V : Type 0} (lib : JwtClientLib W V) (c : JwtSvidClient) where
  -- The flags of a client that pass.
  abbrev pub IsValid : Type 0
  IsValid = (c.audiences ≢ []) × ((c.bundle_source ≢ "") → c.trust_domain ≢ "")

  -- The token is the flag's, or without one the first line of the file.
  abbrev pub IsToken : String → Type 0
  IsToken t =
      ((c.token ≢ "") × (t ≡ c.token))
      ⊎ ((c.token ≡ "") × (c.filename ≢ "") × (lib.open_file c.filename ≡ ok (scanned t)))

  -- The source is that of the flag, or without one the Workload API.
  abbrev pub IsSource : Source W → Type 0
  IsSource s =
      ((c.bundle_source ≢ "")
        × (k : JwkSource) × (new_jwk_source lib.paths c.bundle_source ≡ ok k)
        × (s ≡ jwk k))
      ⊎ ((c.bundle_source ≡ "")
          × (w : W) × (lib.new_jwt_source c.workload_api_socket none ≡ ok w)
          × (s ≡ workload_api w))

  pub record IsVerified : Type 0 where
    pub options : IsValid
    pub source : Source W
    pub token : String
    pub svid : V
    pub source_of : IsSource source
    pub token_of : IsToken token
    pub valid : lib.parse_and_validate token source c.audiences ≡ ok svid

  validate_options-IsValid : (u : Unit {0}) → validate_options c ≡ ok u → IsValid
  unfolding validate_options
  validate_options-IsValid u h =
      let (u1, listed, h1) = >>=-eq-ok (guard (not (is_empty c.audiences)) no_audiences) _ h in
      let named =
        guard-eq-ok (not (not (c.bundle_source =ₛ "") && c.trust_domain =ₛ "")) no_trust_domain u
          h1 in
      let full = guard-eq-ok (not (is_empty c.audiences)) no_audiences u1 listed in
      let bundle = =ₛ_iff c.bundle_source "" in
      let td = =ₛ_iff c.trust_domain "" in
      (λ e. cc (rw e at full), λ set e. set (bundle.0 (ground (arith, named, td.1 e))))

  first_line-scanned : (s : Scan) (t : String) → first_line s ≡ ok t → s ≡ scanned t
  unfolding first_line
  first_line-scanned s t h = ground (arith, h)

  get_token-IsToken : (t : String) → get_token lib c ≡ ok t → IsToken t
  unfolding get_token
  get_token-IsToken t h = elim (Bool-cases (c.token =ₛ "")) [
    | inr set ↦
        let made : ◌≡◌ {A = Result JwtClientError String} (ok c.token) (ok t) =
          rw (set, get_token) at h in
        inl (λ e. cc ((=ₛ_iff c.token "").1 e, set), cc (made))
    | inl unset ↦ elim (Bool-cases (c.filename =ₛ "")) [
      | inl nothing ↦ cc (rw (unset, nothing, get_token) at h)
      | inr file_set ↦
          let h1 : (map_err not_opened (lib.open_file c.filename) >>= first_line) ≡ ok t =
            rw (unset, file_set, get_token) at h in
          let (scan, opened, read) =
            >>=-eq-ok (map_err not_opened (lib.open_file c.filename)) first_line h1 in
          let opened' = map_err-eq-ok not_opened (lib.open_file c.filename) scan opened in
          let same = first_line-scanned scan t read in
          inr (
            (=ₛ_iff c.token "").0 unset,
            λ e. cc ((=ₛ_iff c.filename "").1 e, file_set),
            cc (opened', same),
          )
    ]
  ]

  get_bundle_source-IsSource : (s : Source W) → get_bundle_source lib c ≡ ok s → IsSource s
  unfolding get_bundle_source
  get_bundle_source-IsSource s h = elim (Bool-cases (c.bundle_source =ₛ "")) [
    | inr set ↦
        let h1 = rw (set, get_bundle_source) at h in
        let (k, made, h2) =
          >>=-eq-ok (map_err bad_bundle (new_jwk_source lib.paths c.bundle_source)) _ h1 in
        let made' = map_err-eq-ok bad_bundle (new_jwk_source lib.paths c.bundle_source) k made in
        let same : ◌≡◌ {A = Result JwtClientError (Source W)} (ok (jwk k)) (ok s) = h2 in
        inl (λ e. cc ((=ₛ_iff c.bundle_source "").1 e, set), k, made', cc (same))
    | inl unset ↦
        let h1 = rw (unset, get_bundle_source) at h in
        let (w, made, h2) =
          >>=-eq-ok (map_err no_source (lib.new_jwt_source c.workload_api_socket none)) _ h1 in
        let made' =
          map_err-eq-ok no_source (lib.new_jwt_source c.workload_api_socket none) w made in
        let same : ◌≡◌ {A = Result JwtClientError (Source W)} (ok (workload_api w)) (ok s) = h2 in
        inr ((=ₛ_iff c.bundle_source "").0 unset, w, made', cc (same))
  ]

  -- When `VerifyJWTSVID` succeeds, the flag lists an audience, and a call of go-spiffe's
  -- `ParseAndValidate` has returned without an error. It got the token of the flag, or without one the
  -- first line of the file; the keys at the location of the flag, with a trust domain set, or without a
  -- location those of the Workload API; and the audiences of the flag, which it judges in its own way.
  pub verify_jwt_svid-IsVerified : (u : Unit {0}) → verify_jwt_svid lib c ≡ ok u → IsVerified
  unfolding verify_jwt_svid
  verify_jwt_svid-IsVerified u h =
      let (u1, options, h1) = >>=-eq-ok (validate_options c) _ h in
      let (source, chosen, h2) = >>=-eq-ok (get_bundle_source lib c) _ h1 in
      let (token, got, h3) = >>=-eq-ok (get_token lib c) _ h2 in
      let (svid, valid, _) =
        >>=-eq-ok (map_err not_valid (lib.parse_and_validate token source c.audiences)) _ h3 in
      record {
        options = validate_options-IsValid u1 options;
        source = source;
        token = token;
        svid = svid;
        source_of = get_bundle_source-IsSource source chosen;
        token_of = get_token-IsToken token got;
        valid =
            map_err-eq-ok not_valid (lib.parse_and_validate token source c.audiences) svid valid;
      }

  -- What the client leaves of an SVID: its JSON if it is to be decoded, else the token in the file of
  -- the flag, or without one on the terminal.
  abbrev pub IsOutput : V → Written → Type 0
  IsOutput svid out =
      ((c.decode ≡ true)
        × (json_text : Bytes) × (lib.marshal_json svid ≡ ok json_text)
        × (out ≡ printed (json_text ++ 10 ∷ [])))
      ⊎ ((c.decode ≡ false)
          × (c.filename ≢ "")
          × (lib.write_file c.filename (lib.marshal svid) ≡ ok tt)
          × (out ≡ wrote_file c.filename (lib.marshal svid)))
      ⊎ ((c.decode ≡ false) × (c.filename ≡ "") × (out ≡ printed (lib.marshal svid ++ 10 ∷ [])))

  output_svid-IsOutput :
      (svid : V) (out : Written) → output_svid lib c svid ≡ ok out → IsOutput svid out
  unfolding output_svid decode_json write_svid
  output_svid-IsOutput svid out h = elim (Bool-cases c.decode) [
    | inl decode ↦
        let h1 : decode_json lib c svid ≡ ok out = rw (decode, output_svid) at h in
        let (j, made, h2) = >>=-eq-ok (map_err not_decoded (lib.marshal_json svid)) _ h1 in
        let same : ◌≡◌ {A = Result JwtClientError Written} (ok (printed (j ++ 10 ∷ []))) (ok out) =
          h2 in
        inl (decode, j, map_err-eq-ok not_decoded (lib.marshal_json svid) j made, cc (same))
    | inr raw ↦ elim (Bool-cases (c.filename =ₛ "")) [
      | inr file_set ↦
          let h1 : write_svid lib c svid ≡ ok out = rw (raw, file_set, output_svid) at h in
          let (u, made, h2) =
            >>=-eq-ok (map_err not_written (lib.write_file c.filename (lib.marshal svid))) _ h1 in
          let same : ◌≡◌ {A = Result JwtClientError Written}
              (ok (wrote_file c.filename (lib.marshal svid))) (ok out) =
            h2 in
          inr (
            inl (
              raw,
              λ e. cc ((=ₛ_iff c.filename "").1 e, file_set),
              map_err-eq-ok not_written (lib.write_file c.filename (lib.marshal svid)) u made,
              cc (same),
            ))
      | inl no_file ↦
          let same : ◌≡◌ {A = Result JwtClientError Written}
              (ok (printed (lib.marshal svid ++ 10 ∷ []))) (ok out) =
            rw (raw, no_file, output_svid) at h in
          inr (inr (raw, (=ₛ_iff c.filename "").0 no_file, cc (same)))
    ]
  ]

  pub record IsRequested (exchange_token : String) (out : Written) : Type 0 where
    pub options : IsValid
    pub audience : String
    pub extra : List String
    pub source : W
    pub svid : V
    pub all_audiences : c.audiences ≡ audience ∷ extra
    pub connected :
        ((exchange_token ≡ "") × (lib.new_jwt_source c.workload_api_socket none ≡ ok source))
        ⊎ ((exchange_token ≢ "")
            × (lib.new_jwt_source c.workload_api_socket (some exchange_token) ≡ ok source))
    pub fetched :
        lib.fetch_jwt_svid source (record { audience = audience; extra_audiences = extra })
        ≡ ok svid
    pub written : IsOutput svid out

  fetch_facts :
      (source : W) (svid : V)
      → fetch_with lib c (create_params c.audiences) source ≡ ok svid
      → (a : String) × (extra : List String) × (c.audiences ≡ a ∷ extra)
        × (lib.fetch_jwt_svid source (record { audience = a; extra_audiences = extra }) ≡ ok svid)
  unfolding fetch_with create_params
  fetch_facts source svid = go c.audiences
    where
      go :
          (as' : List String)
          → fetch_with lib c (create_params as') source ≡ ok svid
          → (a : String) × (extra : List String) × (as' ≡ a ∷ extra)
            × (lib.fetch_jwt_svid source (record { audience = a; extra_audiences = extra })
                ≡ ok svid)
      go [] h = cc
      go (a ∷ extra) h =
          (a, extra, refl, map_err-eq-ok not_fetched (lib.fetch_jwt_svid source _) svid h)

  -- When `RequestJWTSVID` succeeds, the SVID was fetched for all the audiences of the flag, of which
  -- there is one, from the socket of the flag and with the exchange token of the context if there is
  -- one; and it was left where the flags say: as JSON on the terminal, in the file, or on the terminal.
  pub request_jwt_svid-IsRequested :
      (exchange_token : String) (out : Written)
      → request_jwt_svid lib c exchange_token ≡ ok out
      → IsRequested exchange_token out
  unfolding request_jwt_svid
  request_jwt_svid-IsRequested exchange_token out h =
      let (u, options, h1) = >>=-eq-ok (validate_options c) _ h in
      let (source, made, h2) =
        >>=-eq-ok (map_err no_source (lib.new_jwt_source c.workload_api_socket _)) _ h1 in
      let (svid, got, written) =
        >>=-eq-ok (fetch_with lib c (create_params c.audiences) source) _ h2 in
      let (a, extra, all, fetched) = fetch_facts source svid got in
      let made' =
        map_err-eq-ok no_source (lib.new_jwt_source c.workload_api_socket _) source made in
      record {
        options = validate_options-IsValid u options;
        audience = a;
        extra = extra;
        source = source;
        svid = svid;
        all_audiences = all;
        connected = elim (Bool-cases (exchange_token =ₛ "")) [
          | inl unset ↦ inl ((=ₛ_iff exchange_token "").0 unset, rw unset at made')
          | inr set ↦ inr (λ e. cc ((=ₛ_iff exchange_token "").1 e, set), rw set at made')
        ];
        fetched = fetched;
        written = output_svid-IsOutput svid out written;
      }
