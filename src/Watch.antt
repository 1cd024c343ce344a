-- ===== src/Watch.antt =====
-- internal/watch: formatter.go here, the watchers in Watchers. Texts are bytes; the kind of an event is
-- a native string.
pub mod Watchers
pub mod Lines
pub mod Refresh
use Prim.Native.String
use spiffecli.Prelude.{
  ℕ, ◌==◌, List, [], ◌∷◌, ◌++◌, Result, ok, err, String, ◌=ₛ◌, one_of, Bytes, codes, is_empty,
  if◌then◌else◌,
}
use spiffecli.Prelude.Int.{ℤ}

-- `WatchEvent`
pub record WatchEvent : Type 0 where
  pub timestamp : Bytes
  pub event : String
  pub spiffe_id : Bytes
  pub expiry : Bytes
  pub trust_domain : Bytes
  pub key_count : ℕ
  pub error : Bytes

-- `%q`, `%d`, `UTC().Format(time.RFC3339)`, and `json.Marshal` of an event.
pub record EventLib : Type 0 where
  pub quote : Bytes → Bytes
  pub decimal : ℕ → Bytes
  pub rfc3339 : ℤ → Bytes
  pub marshal : WatchEvent → Bytes

abbrev pub formats : List String
formats = "json-stream" ∷ "summary-stream" ∷ "event-log" ∷ []

pub data WatchError : Type 0 where
  unknown_format unknown_bundle_type : String → WatchError
  no_audience : WatchError
  client_failed x509_watch_failed jwt_watch_failed : String → WatchError

-- `NewFormatter`
unfoldable pub new_formatter : String → Result WatchError String
new_formatter format = if one_of format formats then ok format else err (unknown_format format)

-- The parts of a line, and its end.
abbrev pub line : List Bytes → Bytes
line [] = 10 ∷ []
line (p ∷ ps) = p ++ line ps

module _ (lib : EventLib) where
  abbrev pub key_word : ℕ → Bytes
  key_word n = if n == 1 then codes "key" else codes "keys"

  -- `emitSummary`, but for the line end
  unfoldable pub summary_parts : WatchEvent → List Bytes
  summary_parts e =
      let ts = e.timestamp in
      if e.event =ₛ "svid_updated"
      then (codes "["
          ∷ ts
          ∷ codes "] X.509 SVID updated: "
          ∷ e.spiffe_id
          ∷ codes " (expires "
          ∷ e.expiry
          ∷ codes ")"
          ∷ [])
      else if e.event =ₛ "jwt_svid_fetched"
      then (codes "["
          ∷ ts
          ∷ codes "] JWT SVID fetched: "
          ∷ e.spiffe_id
          ∷ codes " (expires "
          ∷ e.expiry
          ∷ codes ")"
          ∷ [])
      else if e.event =ₛ "bundle_updated"
      then (codes "["
          ∷ ts
          ∷ codes "] Bundle updated: "
          ∷ e.trust_domain
          ∷ codes " ("
          ∷ lib.decimal e.key_count
          ∷ codes " "
          ∷ key_word e.key_count
          ∷ codes ")"
          ∷ [])
      else if e.event =ₛ "error"
      then (codes "[" ∷ ts ∷ codes "] Error: " ∷ e.error ∷ [])
      else if e.event =ₛ "watching"
      then (codes "[" ∷ ts ∷ codes "] Watching..." ∷ [])
      else (codes "[" ∷ ts ∷ codes "] " ∷ codes e.event ∷ [])

  -- `emitEventLog`, but for the line end
  unfoldable pub event_log_parts : WatchEvent → List Bytes
  event_log_parts e =
      let ts = e.timestamp in
      if e.event =ₛ "svid_updated"
      then (ts
          ∷ codes " EVENT=svid_updated spiffe_id="
          ∷ lib.quote e.spiffe_id
          ∷ codes " expiry="
          ∷ lib.quote e.expiry
          ∷ [])
      else if e.event =ₛ "jwt_svid_fetched"
      then (ts
          ∷ codes " EVENT=jwt_svid_fetched spiffe_id="
          ∷ lib.quote e.spiffe_id
          ∷ codes " expiry="
          ∷ lib.quote e.expiry
          ∷ [])
      else if e.event =ₛ "bundle_updated"
      then (ts
          ∷ codes " EVENT=bundle_updated trust_domain="
          ∷ lib.quote e.trust_domain
          ∷ codes " key_count="
          ∷ lib.decimal e.key_count
          ∷ [])
      else if e.event =ₛ "error"
      then (ts ∷ codes " EVENT=error error=" ∷ lib.quote e.error ∷ [])
      else if e.event =ₛ "watching"
      then (ts ∷ codes " EVENT=watching" ∷ [])
      else (ts ∷ codes " EVENT=" ∷ codes e.event ∷ [])

  -- `Emit` with a formatter's format, when the clock shows `now`: what it writes.
  unfoldable pub emit : String → Bytes → WatchEvent → Bytes
  emit format now event =
      let e : WatchEvent = record event {
        timestamp = if is_empty event.timestamp then now else event.timestamp;
      } in
      if format =ₛ "json-stream"
      then line (lib.marshal e ∷ [])
      else if format =ₛ "summary-stream"
      then line (summary_parts e)
      else if format =ₛ "event-log"
      then line (event_log_parts e)
      else []
