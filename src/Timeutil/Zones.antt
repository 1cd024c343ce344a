-- ===== src/Timeutil/Zones.antt =====
-- The names that pass the pattern.
use spiffecli.Prelude.{
  ◌==◌, ◌≡◌, ◌≢◌, ◌↔◌, refl, inl, inr, true, false, Bool-cases, List, [], ◌∷◌, Result, Result-cases,
  ok, err, Bytes, String, All, split, split_parts,
}
use spiffecli.Timeutil.{is_zone_char, slash, in_zone, ZoneError, invalid_timezone, load_timezone}

-- A segment of a zone's name.
abbrev pub IsSegment : Bytes → Type 0
IsSegment s = (s ≢ []) × All (λ c. is_zone_char c ≡ true) s

abbrev Starts : Bytes → Type 0
Starts s = All IsSegment (split slash s)

abbrev Goes : Bytes → Type 0
Goes s =
    All (λ c. is_zone_char c ≡ true) (split_parts slash s).0 × All IsSegment (split_parts slash s).1

slash_outside : is_zone_char slash ≡ false
slash_outside = refl

in_zone_iff :
    (s : Bytes) → ((in_zone false s ≡ true) ↔ Starts s) × ((in_zone true s ≡ true) ↔ Goes s)
unfolding in_zone
in_zone_iff [] = ((λ h. cc, λ h. absurd (h.0.0 refl)), (λ h. (tt, tt), λ h. refl))
in_zone_iff (c ∷ cs) =
    let ((s, s'), (g, g')) = in_zone_iff cs in
    elim (Bool-cases (c == slash)) [
      | inl e ↦ rw e ((λ h. cc, λ h. absurd (h.0.0 refl)), (λ h. (tt, s h), λ h. s' h.1))
      | inr e ↦ elim (Bool-cases (is_zone_char c)) [
        | inl z ↦
            rw (e, z)
              (
                (λ h. ((λ x. cc, (refl, (g h).0)), (g h).1), λ h. g' (h.0.1.1, h.1)),
                (λ h. ((refl, (g h).0), (g h).1), λ h. g' (h.0.1, h.1)),
              )
        | inr n ↦ rw (e, n) ((λ h. cc, λ h. cc (h.0.1.0)), (λ h. cc, λ h. cc (h.0.0)))
      ]
    ]

no_dot : (s : Bytes) → All (λ c. is_zone_char c ≡ true) s → All (λ c. c ≢ 46) s
no_dot [] h = tt
no_dot (c ∷ cs) (p, h) = (λ e. cc (rw e at p), no_dot cs h)

segments_no_dot :
    (ss : List Bytes) → All IsSegment ss → All (λ s. (s ≢ []) × All (λ c. c ≢ 46) s) ss
segments_no_dot [] h = tt
segments_no_dot (s ∷ ss) (p, h) = ((p.0, no_dot s p.1), segments_no_dot ss h)

-- `LoadTimezone` refuses a name exactly when one of its segments between slashes is empty or has
-- another character than letters, digits, `_`, `+` and `-`; and a zone that it returns was loaded
-- under a name without a dot and without an empty segment, so it names no file outside the zones: no
-- `..`, no leading slash.
pub load_timezone_correct :
    {Z : Type 0} (load_location : Bytes → Result String Z) (name : Bytes)
    → ((load_timezone load_location name ≡ err invalid_timezone)
        ↔ (All IsSegment (split slash name) → ⊥))
      × ((z : Z)
          → load_timezone load_location name ≡ ok z
          → (load_location name ≡ ok z)
            × All (λ s. (s ≢ []) × All (λ c. c ≢ 46) s) (split slash name))
unfolding load_timezone
load_timezone_correct {Z} load_location name = elim (Bool-cases (in_zone false name)) [
  | inr bad ↦ (
    (λ h s. cc (((in_zone_iff name).0).1 s, bad), λ h. rw (bad, load_timezone) refl),
    λ z h. cc (rw (bad, load_timezone) at h),
  )
  | inl good ↦ elim (Result-cases (load_location name)) [
    | inl (z, found) ↦ (
      (
        λ h. cc (rw (good, found, load_timezone) at h),
        λ h. absurd (h (((in_zone_iff name).0).0 good)),
      ),
      λ y h.
          let same : ◌≡◌ {A = Result ZoneError Z} (ok z) (ok y) =
            rw (good, found, load_timezone) at h in
          (cc (found, same), segments_no_dot (split slash name) (((in_zone_iff name).0).0 good)),
    )
    | inr (e, failed) ↦ (
      (
        λ h. cc (rw (good, failed, load_timezone) at h),
        λ h. absurd (h (((in_zone_iff name).0).0 good)),
      ),
      λ y h. cc (rw (good, failed, load_timezone) at h),
    )
  ]
]
