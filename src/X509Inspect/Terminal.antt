-- ===== src/X509Inspect/Terminal.antt =====
-- `sanitizeForTerminal` of certificate.go, over the code points of a text.
use spiffecli.Prelude.{
  ℕ, ◌+◌, ◌≤◌, ◌≡◌, refl, ◌≢◌, Bool, ◌&&◌, ◌||◌, List, [], ◌∷◌, ◌++◌, map, arith, leb, ◌==◌,
  if◌then◌else◌, All, length, length-map, ◌⊎◌,
}

-- The two control blocks and DEL.
is_control : ℕ → Bool
is_control r = leb r 0x1F || r == 0x7F || (leb 0x80 r && leb r 0x9F)

-- `unicode.ReplacementChar`
abbrev pub replacement_char : ℕ
replacement_char = 0xFFFD

sanitize_rune : ℕ → ℕ
sanitize_rune r = if is_control r then replacement_char else r

unfoldable pub sanitize_for_terminal : List ℕ → List ℕ
unfolding is_control sanitize_rune
sanitize_for_terminal = map sanitize_rune

-- A code point that a terminal shows and does not obey.
abbrev pub IsPrintable : ℕ → Type 0
IsPrintable r = (0x20 ≤ r) × (r ≢ 0x7F) × (¬ ((0x80 ≤ r) × (r ≤ 0x9F)))

pub sanitize_for_terminal-IsPrintable : (s : List ℕ) → All IsPrintable (sanitize_for_terminal s)
unfolding sanitize_for_terminal
sanitize_for_terminal-IsPrintable [] = tt
sanitize_for_terminal-IsPrintable (r ∷ s) =
    ((ground arith, ground arith, ground arith), sanitize_for_terminal-IsPrintable s)

-- Text without control characters is left as it is.
pub sanitize_for_terminal_of_IsPrintable :
    (s : List ℕ) → All IsPrintable s → sanitize_for_terminal s ≡ s
unfolding sanitize_for_terminal
sanitize_for_terminal_of_IsPrintable [] h = refl
sanitize_for_terminal_of_IsPrintable (r ∷ s) ((a, b, c), h) =
    ground (arith, sanitize_for_terminal_of_IsPrintable s h)

-- How many line ends a text holds.
abbrev pub newlines : List ℕ → ℕ
newlines [] = 0
newlines (c ∷ s) = let rest = newlines s in if c == 10 then rest + 1 else rest

pub newlines-append : (s t : List ℕ) → newlines (s ++ t) ≡ newlines s + newlines t
newlines-append [] t = omega arith
newlines-append (c ∷ s) t = ground (arith, newlines-append s t)

pub newlines-sanitize_for_terminal : (s : List ℕ) → newlines (sanitize_for_terminal s) ≡ 0
unfolding sanitize_for_terminal
newlines-sanitize_for_terminal [] = refl
newlines-sanitize_for_terminal (c ∷ s) = ground (arith, newlines-sanitize_for_terminal s)

-- A code point of a line, or the end of one.
abbrev pub IsPlain : ℕ → Type 0
IsPlain r = IsPrintable r ⊎ (r ≡ 10)

pub sanitize_for_terminal-IsPlain : (s : List ℕ) → All IsPlain (sanitize_for_terminal s)
unfolding sanitize_for_terminal
sanitize_for_terminal-IsPlain [] = tt
sanitize_for_terminal-IsPlain (r ∷ s) = (ground arith, sanitize_for_terminal-IsPlain s)

-- Sanitising replaces: it keeps the number of code points, leaves only printable ones, and does
-- nothing the second time or to a text that was printable.
pub sanitize_for_terminal_correct :
    (s : List ℕ)
    → All IsPrintable (sanitize_for_terminal s)
      × (length (sanitize_for_terminal s) ≡ length s)
      × (sanitize_for_terminal (sanitize_for_terminal s) ≡ sanitize_for_terminal s)
      × (All IsPrintable s → sanitize_for_terminal s ≡ s)
unfolding sanitize_for_terminal
sanitize_for_terminal_correct s =
    let clean = sanitize_for_terminal-IsPrintable s in
    (
      clean,
      length-map sanitize_rune s,
      sanitize_for_terminal_of_IsPrintable (sanitize_for_terminal s) clean,
      sanitize_for_terminal_of_IsPrintable s,
    )
