-- ===== src/Tests/Serving.antt =====
-- A trust domain that serves its bundles, and a watcher of tokens.
use spiffecli.Prelude.{
  ◌≡◌, ◌≢◌, ◌↔◌, refl, sym, ap, inl, inr, Bool-cases, Bool, true, false, ◌&&◌, Option, List, [],
  ◌∷◌, Result, ok, err, String, ◌=ₛ◌, =ₛ_iff, Bytes, lookup_text, if◌then◌else◌, All, length, arith,
  codes, split,
}
use spiffecli.Prelude.Int.{pos, ◌+ℤ◌, ◌≤ℤ◌}
use spiffecli.Cert.{PublicKey, Cert}
use spiffecli.Cryptoutil.{jose_alg_from_public_key}
use spiffecli.JwtAuthority
use spiffecli.JwtSvid.{ValidateLib, validate_token}
use spiffecli.WlApi.TrustDomain.{TrustDomain, td_mint_jwt_svid}
use spiffecli.WlApi.TrustDomain.Bundles.{
  BundleLib, bad_request, not_found, served, jwt_keys, jwt_bundles, serve_http,
}
use spiffecli.WlApi.TrustDomain.Serving.{IsVerifying, IsCodec, td_mint_jwt_svid-validates}
use spiffecli.WlApi.TrustDomain.Endpoint.{IsFirst, IsSupported, serve_http_correct}
use spiffecli.Watch.{EventLib}
use spiffecli.Watch.Lines.{IsEscaping}
use spiffecli.Watch.Watchers.{Fetch, JwtSvidWatcher, Watched, watch_jwt}
use spiffecli.Watch.Refresh.{until, IsComplete, watch_jwt-IsComplete}
use spiffecli.Timeutil.{slash, load_timezone, invalid_timezone}
use spiffecli.Timeutil.Zones.{IsSegment, load_timezone_correct}
use spiffecli.Tests.Fixtures.{seconds, id, root_key}
use spiffecli.Tests.Libraries.{jose, jose-IsDocumented, same_key, same_key-eq}
use spiffecli.Tests.Authorities.{td, jwt_info}

abbrev td2 : TrustDomain
td2 = record td { jwt_authorities = jwt_info ∷ [] }

abbrev served_keys : List (String × PublicKey)
served_keys = ("k1", root_key) ∷ []

abbrev are_served : List (String × PublicKey) → Bool
are_served ((k, key) ∷ []) = k =ₛ "k1" && same_key key root_key
are_served _ = false

are_served-eq : (ks : List (String × PublicKey)) → are_served ks ≡ true → ks ≡ served_keys
are_served-eq [] h = cc
are_served-eq ((k, key) ∷ []) h = elim (Bool-cases (k =ₛ "k1")) [
  | inl e ↦
      let named : k ≡ "k1" = (=ₛ_iff k "k1").0 e in
      let keyed : key ≡ root_key = same_key-eq key root_key (rw e at h) in rw (named, keyed) refl
  | inr e ↦ cc (rw e at h)
]
are_served-eq (k ∷ l ∷ ks) h = cc

-- Writes and reads the keys of the trust domain only.
abbrev marshal : String → List (String × PublicKey) → Result String Bytes
marshal name keys = if are_served keys then ok (7 ∷ []) else err "unknown"

abbrev parse_bundle : String → Bytes → Result String (String → Option PublicKey)
parse_bundle name bytes = ok (λ k. lookup_text k served_keys)

abbrev verifying : ValidateLib
verifying = record {
  verified_claims = λ tok k. ok (("sub", "spiffe://example.org/web") ∷ []);
  validate = λ c audience now. ok tt;
  jwt_bundle = λ name. parse_bundle name (7 ∷ []);
}

verifying-IsVerifying : IsVerifying jose verifying
verifying-IsVerifying = record {
  verified = λ s c token tok signed parsed. (("sub", "spiffe://example.org/web") ∷ [], refl);
  valid = λ c expected t expiry issued e i a b some_expected listed. refl;
}

codec : IsCodec marshal parse_bundle
codec = record {
  reads = λ name keys bytes h. elim (Bool-cases (are_served keys)) [
    | inl e ↦
        (λ k. lookup_text k served_keys, refl, λ k. ap (lookup_text k) (sym (are_served-eq keys e)))
    | inr e ↦ cc (rw e at h)
  ];
}

minted2 :
    td_mint_jwt_svid jose td2 (seconds 2000) (ok "") id ("db" ∷ []) (seconds 3600) ≡ ok "token"
unfolding td_mint_jwt_svid JwtAuthority.new_authority JwtAuthority.with_key jose_alg_from_public_key
    JwtAuthority.mint_jwt_svid JwtAuthority.has_empty_audience JwtAuthority.determine_expiry
    JwtAuthority.svid_claims ◌+ℤ◌
minted2 = refl

bundled : jwt_bundles (λ n. n) marshal td2 ≡ ok ("example.org", 7 ∷ [])
unfolding jwt_bundles jwt_keys
bundled = refl

in_ttl : seconds 3000 +ℤ pos 1000000000 ≤ℤ seconds 2000 +ℤ seconds 3600
unfolding ◌+ℤ◌
in_ttl = omega arith

in_authority : seconds 3000 +ℤ pos 1000000000 ≤ℤ seconds 2000 +ℤ seconds 86400
unfolding ◌+ℤ◌
in_authority = omega arith

td_mint_jwt_svid-validates_example :
    (m : List (String × String)) × (validate_token jose verifying (seconds 3000) "token" ("db" ∷ [])
      ≡ ok (id, m))
td_mint_jwt_svid-validates_example =
    td_mint_jwt_svid-validates jose verifying verifying-IsVerifying jose-IsDocumented (λ n. n)
      marshal parse_bundle codec td2 (seconds 2000) (seconds 3000) (ok "") id id ("db" ∷ [])
      ("db" ∷ []) (seconds 3600) "token" "example.org" (7 ∷ []) minted2 bundled refl refl
      (omega arith) in_ttl in_authority (λ e. cc) (inl refl, tt)

-- A bundle as its certificates and key IDs.
abbrev Bundle : Type 0
Bundle = List Cert × List String

abbrev bundle_lib : BundleLib Bundle
bundle_lib = record {
  empty = λ name. ([], []);
  add_x509_authority = λ b c. (c ∷ b.0, b.1);
  add_jwt_authority = λ b k key. ok (b.0, k ∷ b.1);
  marshal = λ b. ok (length b.0 ∷ length b.1 ∷ []);
}

abbrev split_path : String → String × String
split_path path = if path =ₛ "/example.org" then ("/", "example.org") else ("", path)

serve_http_correct_example :
    ((serve_http bundle_lib split_path (td2 ∷ []) "GET" "/example.org" ≡ bad_request)
      ↔ (IsSupported bundle_lib split_path "GET" "/example.org" → ⊥))
    × ((serve_http bundle_lib split_path (td2 ∷ []) "GET" "/example.org" ≡ not_found) ↔ (
        IsSupported bundle_lib split_path "GET" "/example.org"
        × All (λ t. t.config.name ≢ "example.org") (td2 ∷ [])))
    × ((bytes : Bytes)
        → serve_http bundle_lib split_path (td2 ∷ []) "GET" "/example.org" ≡ served bytes
        → IsSupported bundle_lib split_path "GET" "/example.org"
          × IsFirst bundle_lib split_path (td2 ∷ []) "example.org" bytes)
serve_http_correct_example =
    serve_http_correct bundle_lib split_path (td2 ∷ []) "GET" "/example.org"

abbrev event_lib : EventLib
event_lib = record {
  quote = λ s. codes "\"\"";
  decimal = λ n. codes "1";
  rfc3339 = λ t. codes "2026";
  marshal = λ e. codes "{}";
}

event_lib-IsEscaping : IsEscaping event_lib
event_lib-IsEscaping = record {
  quote = λ s. refl;
  decimal = λ n. refl;
  rfc3339 = λ t. refl;
  marshal = λ e. refl;
}

abbrev good_fetch : Fetch
good_fetch = record {
  outcome = ok (codes "spiffe://example.org/web", seconds 9);
  cancelled = false;
  at = codes "2026";
}

abbrev bad_fetch : Fetch
bad_fetch = record { outcome = err (codes "no\n"); cancelled = false; at = codes "2026" }

abbrev watcher : JwtSvidWatcher
watcher = record { audiences = "db" ∷ "web" ∷ []; format = "event-log"; interval = pos 0 }

watch_jwt-IsComplete_example :
    (w : Watched) × (watch_jwt event_lib watcher
        (ok tt)
        false
        (codes "2026")
        good_fetch
        (until (bad_fetch ∷ []) [])
      ≡ ok w)
    × IsComplete good_fetch (bad_fetch ∷ []) "db" ("web" ∷ []) w
watch_jwt-IsComplete_example =
    watch_jwt-IsComplete event_lib event_lib-IsEscaping "event-log" (inr refl) "db" ("web" ∷ [])
      (pos 0) false (codes "2026") good_fetch (bad_fetch ∷ []) [] refl (inl refl, refl)
      ((inl refl, refl), tt)

abbrev no_zones : Bytes → Result String (Unit {0})
no_zones name = ok tt

load_timezone_correct_example :
    ((load_timezone no_zones (codes "Europe/Berlin") ≡ err invalid_timezone)
      ↔ (All IsSegment (split slash (codes "Europe/Berlin")) → ⊥))
    × ((z : Unit {0})
        → load_timezone no_zones (codes "Europe/Berlin") ≡ ok z
        → (no_zones (codes "Europe/Berlin") ≡ ok z)
          × All (λ s. (s ≢ []) × All (λ c. c ≢ 46) s) (split slash (codes "Europe/Berlin")))
load_timezone_correct_example = load_timezone_correct no_zones (codes "Europe/Berlin")
