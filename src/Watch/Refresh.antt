-- ===== src/Watch/Refresh.antt =====
-- The refresh loop of the JWT watcher.
use spiffecli.Prelude.{
  suc, ◌+◌, ◌≡◌, ◌⊎◌, refl, inl, inr, Bool, true, false, Bool-cases, List, [], ◌∷◌, some,
  Result-cases, ok, String, Bytes, length, All, arith, ap,
}
use spiffecli.Prelude.Int.{ℤ, pos, ◌<ℤ◌, leb_ℤ}
use spiffecli.X509Inspect.Terminal.{newlines}
use spiffecli.Watch.{WatchEvent, EventLib, new_formatter, emit}
use spiffecli.Watch.Lines.{IsEscaping, emit-one_line}
use spiffecli.Watch.Watchers.{
  blank, error_event, or_summary, connect, Fetch, Signal, tick, cancel, JwtSvidWatcher, Watched,
  fetch_and_emit, refresh, effective_interval, watch_params, watch_connected, watch_jwt,
}

-- A fetch that succeeds or fails before the context is cancelled, at a time whose text is one line.
abbrev pub IsReported : Fetch → Type 0
IsReported f =
    ((f.cancelled ≡ false) ⊎ ((svid : Bytes × ℤ) × (f.outcome ≡ ok svid))) × (newlines f.at ≡ 0)

-- Ticks, then the cancellation, then whatever follows.
abbrev pub until : List Fetch → List Signal → List Signal
until [] later = cancel ∷ later
until (f ∷ fs) later = tick f ∷ until fs later

-- The two formats that escape.
abbrev pub IsEscaped : String → Type 0
IsEscaped format = (format ≡ "json-stream") ⊎ (format ≡ "event-log")

module _ (lib : EventLib) (doc : IsEscaping lib) (format : String) (known : IsEscaped format) where
  fetch_and_emit-line :
      (f : Fetch)
      → IsReported f
      → (l : Bytes) × (fetch_and_emit lib format f ≡ l ∷ []) × (newlines l ≡ 1)
  unfolding fetch_and_emit
  fetch_and_emit-line f (reported, at) = elim (Result-cases f.outcome) [
    | inl (svid, fetched) ↦
        let e : WatchEvent = record (blank "jwt_svid_fetched") {
          spiffe_id = svid.0;
          expiry = lib.rfc3339 svid.1;
        } in
        (
          emit lib format f.at e,
          rw (fetched, fetch_and_emit) refl,
          emit-one_line lib doc format f.at e at (refl, refl) known,
        )
    | inr (e, failed) ↦ elim reported [
      | inr (svid, fetched) ↦ cc (failed, fetched)
      | inl going ↦ (
        emit lib format f.at (error_event e),
        rw (failed, going, fetch_and_emit) refl,
        emit-one_line lib doc format f.at (error_event e) at (refl, refl) known,
      )
    ]
  ]

  refresh-lines :
      (fs : List Fetch) (later : List Signal)
      → All IsReported fs
      → ((refresh lib format (until fs later)).1 ≡ true)
        × (length (refresh lib format (until fs later)).0 ≡ length fs)
        × All (λ l. newlines l ≡ 1) (refresh lib format (until fs later)).0
  unfolding refresh
  refresh-lines [] later h = (refl, refl, tt)
  refresh-lines (f ∷ fs) later (r, h) =
      let (ended, count, single) = refresh-lines fs later h in
      let (l, one, flat) = fetch_and_emit-line f r in
      (ended, rw one (ap suc count), rw one (flat, single))

  watching-line :
      (now : Bytes) → newlines now ≡ 0 → newlines (emit lib format now (blank "watching")) ≡ 1
  watching-line now flat =
      emit-one_line lib doc format now (blank "watching") flat (refl, refl) known

effective_interval-positive : (lib : EventLib) (i : ℤ) → pos 0 <ℤ effective_interval lib i
unfolding effective_interval
effective_interval-positive lib i = elim (Bool-cases (leb_ℤ i (pos 0))) [
  | inl small ↦ rw (small, effective_interval) (omega arith)
  | inr big ↦ rw (big, effective_interval) (ground arith)
]

known_format : (format : String) → IsEscaped format → new_formatter (or_summary format) ≡ ok format
unfolding new_formatter
known_format format (inl e) = rw e refl
known_format format (inr e) = rw e refl

-- What a watch has done by its cancellation.
pub record IsComplete (first : Fetch) (fs : List Fetch) (audience : String) (extra : List String)
    (w : Watched) : Type 0 where
  pub ended : w.ended ≡ true
  pub interval : pos 0 <ℤ w.interval
  pub params : w.params ≡ some (record { audience = audience; extra_audiences = extra })
  pub count : length w.lines ≡ 2 + length fs
  pub single : All (λ l. newlines l ≡ 1) w.lines

-- `Watch` of the JWT watcher, with an audience, one of the two formats that escape, and a client:
-- when the context is cancelled it returns, without an error, whatever signals follow. It has asked
-- for all the audiences, at a positive interval, and has written exactly one line for the start, one
-- for the first fetch and one for each tick, whether the fetch succeeded or failed, if no fetch failed
-- under the cancelled context.
pub watch_jwt-IsComplete :
    (lib : EventLib) (doc : IsEscaping lib) (format : String) (known : IsEscaped format)
    (audience : String) (extra : List String) (interval : ℤ) (cancelled : Bool) (now : Bytes)
    (first : Fetch) (fs : List Fetch) (later : List Signal)
    → newlines now ≡ 0
    → IsReported first
    → All IsReported fs
    → (w : Watched) × (watch_jwt lib
          (record { audiences = audience ∷ extra; format = format; interval = interval })
          (ok tt)
          cancelled
          now
          first
          (until fs later)
        ≡ ok w)
      × IsComplete first fs audience extra w
unfolding watch_jwt connect watch_connected watch_params new_formatter
watch_jwt-IsComplete lib doc format known audience extra interval cancelled now first fs later flat
      r rs =
    let watcher : JwtSvidWatcher = record {
      audiences = audience ∷ extra;
      format = format;
      interval = interval;
    } in
    let (l, one, single) = fetch_and_emit-line lib doc format known first r in
    let (ended, count, singles) = refresh-lines lib doc format known fs later rs in
    (
      watch_connected lib watcher format now first (until fs later) true,
      rw (known_format format known) refl,
      record {
        ended = ended;
        interval = effective_interval-positive lib interval;
        params = refl;
        count = rw one (omega (arith, count));
        single = (watching-line lib doc format known now flat, rw one (single, singles));
      },
    )
