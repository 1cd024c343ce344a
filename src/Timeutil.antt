-- ===== src/Timeutil.antt =====
-- internal/timeutil: the pattern that the name of a time zone has to match.
pub mod Zones
use spiffecli.Prelude.{
  ℕ, ◌==◌, leb, Bool, true, false, ◌&&◌, ◌||◌, if◌then◌else◌, List, [], ◌∷◌, Result, ok, err, Bytes,
  String,
}

-- `[A-Za-z0-9_+\-]`
abbrev pub is_zone_char : ℕ → Bool
is_zone_char c =
    (leb 65 c && leb c 90)
    || ((leb 97 c && leb c 122) || ((leb 48 c && leb c 57) || (c == 95 || (c == 43 || c == 45))))

-- `/`
abbrev pub slash : ℕ
slash = 47

-- `validTimezoneRe` after some characters, with whether the segment has one.
unfoldable pub in_zone : Bool → Bytes → Bool
in_zone has [] = has
in_zone has (c ∷ cs) =
    let next = in_zone false cs in
    let more = in_zone true cs in if c == slash then has && next else is_zone_char c && more

pub data ZoneError : Type 0 where
  invalid_timezone : ZoneError
  load_failed : String → ZoneError

-- `LoadTimezone`, with `time.LoadLocation`
unfoldable pub load_timezone {ℓ} :
    {Z : Type ℓ} → (Bytes → Result String Z) → Bytes → Result ZoneError Z
load_timezone load_location name =
    if in_zone false name
    then elim (load_location name) [ ok z ↦ ok z | err e ↦ err (load_failed e) ]
    else err invalid_timezone
