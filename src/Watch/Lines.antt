-- ===== src/Watch/Lines.antt =====
-- How many lines an event is.
use spiffecli.Prelude.{
  ℕ, ◌+◌, ◌≡◌, ◌⊎◌, refl, inl, inr, Bool, true, false, List, [], ◌∷◌, String, ◌=ₛ◌, Bytes, codes,
  is_empty, if◌then◌else◌, All, arith,
}
use spiffecli.Prelude.Int.{ℤ}
use spiffecli.X509Inspect.Terminal.{newlines, newlines-append}
use spiffecli.Watch.{WatchEvent, EventLib, line, event_log_parts, emit}

-- What is documented: quoting and JSON escape line ends, and numbers and times have none.
pub record IsEscaping (lib : EventLib) : Type 0 where
  pub quote : (s : Bytes) → newlines (lib.quote s) ≡ 0
  pub decimal : (n : ℕ) → newlines (lib.decimal n) ≡ 0
  pub rfc3339 : (t : ℤ) → newlines (lib.rfc3339 t) ≡ 0
  pub marshal : (e : WatchEvent) → newlines (lib.marshal e) ≡ 0

-- Both branches of a conditional have it.
pub if-both {ℓ κ} :
    {A : Type ℓ} (P : A → Type κ) (b : Bool) (x y : A) → P x → P y → P (if b then x else y)
if-both P true x y p q = p
if-both P false x y p q = q

abbrev pub sum_newlines : List Bytes → ℕ
sum_newlines [] = 0
sum_newlines (p ∷ ps) = newlines p + sum_newlines ps

pub newlines-line : (ps : List Bytes) → newlines (line ps) ≡ sum_newlines ps + 1
newlines-line [] = refl
newlines-line (p ∷ ps) = omega (arith, newlines-line ps, newlines-append p (line ps))

-- A line of parts without line ends.
one_line : (ps : List Bytes) → All (λ p. newlines p ≡ 0) ps → newlines (line ps) ≡ 1
one_line [] h = refl
one_line (p ∷ ps) (q, h) = omega (arith, one_line ps h, newlines-append p (line ps))

-- An event whose time and kind are texts without line ends.
abbrev pub IsPlainEvent : WatchEvent → Type 0
IsPlainEvent e = (newlines e.timestamp ≡ 0) × (newlines (codes e.event) ≡ 0)

abbrev pub Flat : List Bytes → Type 0
Flat ps = All (λ p. newlines p ≡ 0) ps

module _ (lib : EventLib) (doc : IsEscaping lib) where
  event_log_parts-Flat : (e : WatchEvent) → IsPlainEvent e → Flat (event_log_parts lib e)
  unfolding event_log_parts
  event_log_parts-Flat e (ts, kind) =
      let id = doc.quote e.spiffe_id in
      let expiry = doc.quote e.expiry in
      if-both Flat (e.event =ₛ "svid_updated") _ _ (ts, (refl, (id, (refl, (expiry, tt)))))
        (if-both Flat (e.event =ₛ "jwt_svid_fetched") _ _ (ts, (refl, (id, (refl, (expiry, tt)))))
          (if-both Flat (e.event =ₛ "bundle_updated") _ _
            (ts, (refl, (doc.quote e.trust_domain, (refl, (doc.decimal e.key_count, tt)))))
            (if-both Flat (e.event =ₛ "error") _ _ (ts, (refl, (doc.quote e.error, tt)))
              (if-both Flat (e.event =ₛ "watching") _ _ (ts, (refl, tt))
                (ts, (refl, (kind, tt)))))))

  -- The time of an event and its kind are texts without line ends.
  pub emit-one_line :
      (format : String) (now : Bytes) (e : WatchEvent)
      → newlines now ≡ 0
      → IsPlainEvent e
      → (format ≡ "json-stream") ⊎ (format ≡ "event-log")
      → newlines (emit lib format now e) ≡ 1
  unfolding emit
  emit-one_line format now e n (ts, kind) (inl json) =
      rw (json, emit) (one_line (lib.marshal _ ∷ []) (doc.marshal _, tt))
  emit-one_line format now e n (ts, kind) (inr log) =
      let e' : WatchEvent = record e {
        timestamp = if is_empty e.timestamp then now else e.timestamp;
      } in
      let ts' = if-both (λ t. newlines t ≡ 0) (is_empty e.timestamp) now e.timestamp n ts in
      rw (log, emit) (one_line (event_log_parts lib e') (event_log_parts-Flat e' (ts', kind)))
