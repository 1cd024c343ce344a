-- ===== src/Watch/Watchers.antt =====
-- jwtwatcher.go, bundlewatcher.go and x509watcher.go: what the watchers write. What go-spiffe calls
-- back and what the clock shows at each event are given; a cancelled context is a Boolean.
use spiffecli.Prelude.{
  ℕ, ◌*◌, Bool, true, false, not, List, [], ◌∷◌, ◌++◌, map, Result, ok, err, ◌>>=◌, ◌>>◌, guard,
  String, ◌=ₛ◌, Bytes, is_empty, if◌then◌else◌, Option, none, some,
}
use spiffecli.Prelude.Int.{ℤ, pos, leb_ℤ}
use spiffecli.X509Authority.{second}
use spiffecli.Watch.{
  WatchEvent, EventLib, WatchError, no_audience, client_failed, x509_watch_failed, jwt_watch_failed,
  unknown_bundle_type, new_formatter, emit,
}

-- An event of a kind without other fields.
abbrev pub blank : String → WatchEvent
blank kind = record {
  timestamp = [];
  event = kind;
  spiffe_id = [];
  expiry = [];
  trust_domain = [];
  key_count = 0;
  error = [];
}

abbrev pub error_event : Bytes → WatchEvent
error_event e = record (blank "error") { error = e }

-- The default for an unset format.
abbrev pub or_summary : String → String
or_summary format = if format =ₛ "" then "summary-stream" else format

-- `workloadapi.New`: a failure under a cancelled context is no error.
unfoldable pub connect : Result String (Unit {0}) → Bool → Result WatchError Bool
connect (ok u) cancelled = ok true
connect (err e) true = ok false
connect (err e) false = err (client_failed e)

-- What `FetchJWTSVID` returns, an ID and an expiry, whether the context is cancelled by then, and the
-- time of the event.
pub record Fetch : Type 0 where
  pub outcome : Result Bytes (Bytes × ℤ)
  pub cancelled : Bool
  pub at : Bytes

-- What wakes the loop.
pub data Signal : Type 0 where
  tick : Fetch → Signal
  cancel : Signal

pub record JwtSvidWatcher : Type 0 where
  pub audiences : List String
  pub format : String
  pub interval : ℤ

-- `jwtsvid.Params`
pub record Params : Type 0 where
  pub audience : String
  pub extra_audiences : List String

-- The interval, the parameters and the lines of a watch, and whether it has ended.
pub record Watched : Type 0 where
  pub interval : ℤ
  pub params : Option Params
  pub lines : List Bytes
  pub ended : Bool

module _ (lib : EventLib) where
  -- `fetchAndEmit`
  unfoldable pub fetch_and_emit : String → Fetch → List Bytes
  fetch_and_emit format fetch = elim fetch.outcome [
    | err e ↦ if not fetch.cancelled then emit lib format fetch.at (error_event e) ∷ [] else []
    | ok svid ↦
        emit lib format fetch.at
          (record (blank "jwt_svid_fetched") { spiffe_id = svid.0; expiry = lib.rfc3339 svid.1 })
        ∷ []
  ]

  -- The loop: its lines, and whether it returned.
  unfoldable pub refresh : String → List Signal → List Bytes × Bool
  refresh format [] = ([], false)
  refresh format (cancel ∷ signals) = ([], true)
  refresh format (tick fetch ∷ signals) =
      let rest = refresh format signals in (fetch_and_emit format fetch ++ rest.0, rest.1)

  unfoldable pub effective_interval : ℤ → ℤ
  effective_interval i = if leb_ℤ i (pos 0) then pos (60 * second) else i

  unfoldable pub watch_params : List String → Option Params
  watch_params [] = none
  watch_params (a ∷ extra) = some (record { audience = a; extra_audiences = extra })

  unfoldable pub watch_connected :
      JwtSvidWatcher → String → Bytes → Fetch → List Signal → Bool → Watched
  watch_connected w format now first signals true =
      let loop = refresh format signals in
      record {
        interval = effective_interval w.interval;
        params = watch_params w.audiences;
        lines = emit lib format now (blank "watching") ∷ (fetch_and_emit format first ++ loop.0);
        ended = loop.1;
      }
  watch_connected w format now first signals false = record {
    interval = effective_interval w.interval;
    params = none;
    lines = [];
    ended = true;
  }

  -- `JWTSVIDWatcher.Watch`
  unfoldable pub watch_jwt :
      JwtSvidWatcher
      → Result String (Unit {0})
      → Bool
      → Bytes
      → Fetch
      → List Signal
      → Result WatchError Watched
  watch_jwt w client cancelled now first signals = do
    guard (not (is_empty w.audiences)) no_audience
    format ← new_formatter (or_summary w.format)
    connected ← connect client cancelled
    ok (watch_connected w format now first signals connected)

-- A callback of a stream, with the time of its events: the trust domains of the bundles and their
-- numbers of keys, the IDs of the SVIDs and the ends of their certificates, or an error.
pub data Update : Type 0 where
  bundles : Bytes → List (Bytes × ℕ) → Update
  svids : Bytes → List (Bytes × List ℤ) → Update
  watch_failed : Bytes → Bytes → Update

module _ (lib : EventLib) (format : String) where
  unfoldable pub first_expiry : List ℤ → Bytes
  first_expiry [] = []
  first_expiry (t ∷ ts) = lib.rfc3339 t

  unfoldable pub bundle_event : Bytes × ℕ → WatchEvent
  bundle_event (td, n) = record (blank "bundle_updated") { trust_domain = td; key_count = n }

  unfoldable pub svid_event : Bytes × List ℤ → WatchEvent
  svid_event (id, certs) = record (blank "svid_updated") {
    spiffe_id = id;
    expiry = first_expiry certs;
  }

  -- `OnX509BundlesUpdate` and `OnJWTBundlesUpdate`, `OnX509ContextUpdate`, and the callbacks for errors
  unfoldable pub on_update : Update → List Bytes
  on_update (bundles now bs) = map (λ b. emit lib format now (bundle_event b)) bs
  on_update (svids now ss) = map (λ s. emit lib format now (svid_event s)) ss
  on_update (watch_failed now e) = emit lib format now (error_event e) ∷ []

  unfoldable pub on_updates : List Update → List Bytes
  on_updates [] = []
  on_updates (u ∷ us) = on_update u ++ on_updates us

-- How a stream ended: an error under a cancelled context is none.
unfoldable pub stream_end {ℓ} :
    {E : Type ℓ} → (String → E) → Result String (Unit {0}) → Bool → Result E (Unit {0})
stream_end wrap (ok u) cancelled = ok tt
stream_end wrap (err e) true = ok tt
stream_end wrap (err e) false = err (wrap e)

module _ (lib : EventLib) where
  -- A stream between `NewFormatter` and its end: the lines and the outcome, which for a bundle type
  -- without a stream is an error.
  unfoldable pub watch_stream :
      String
      → Result String (Unit {0})
      → Bool
      → Bytes
      → (String → List Bytes × Result WatchError (Unit {0}))
      → List Bytes × Result WatchError (Unit {0})
  watch_stream format client cancelled now run = elim (new_formatter (or_summary format)) [
    | err e ↦ ([], err e)
    | ok f ↦ elim (connect client cancelled) [
      | err e ↦ ([], err e)
      | ok false ↦ ([], ok tt)
      | ok true ↦ (emit lib f now (blank "watching") ∷ (run f).0, (run f).1)
    ]
  ]

  -- `X509SVIDWatcher.Watch`, with the callbacks and the end of `WatchX509Context`
  unfoldable pub watch_x509 :
      String
      → Result String (Unit {0})
      → Bool
      → Bytes
      → List Update
      → Result String (Unit {0})
      → Bool
      → List Bytes × Result WatchError (Unit {0})
  watch_x509 format client cancelled now updates end cancelled_then =
      watch_stream format client cancelled now
        (λ f. (on_updates lib f updates, stream_end x509_watch_failed end cancelled_then))

  -- `BundleWatcher.Watch`, with those of `WatchX509Bundles` or `WatchJWTBundles`
  unfoldable pub watch_bundle :
      String
      → String
      → Result String (Unit {0})
      → Bool
      → Bytes
      → List Update
      → Result String (Unit {0})
      → Bool
      → List Bytes × Result WatchError (Unit {0})
  watch_bundle bundle_type format client cancelled now updates end cancelled_then =
      watch_stream format client cancelled now (λ f.
        if bundle_type =ₛ "x509"
        then (on_updates lib f updates, stream_end x509_watch_failed end cancelled_then)
        else if bundle_type =ₛ "jwt"
        then (on_updates lib f updates, stream_end jwt_watch_failed end cancelled_then)
        else ([], err (unknown_bundle_type bundle_type)))
