-- ===== src/Cmd.antt =====
-- cmd/validation.go: the address of the Workload API socket, over code points.
pub mod Commands
pub mod Sockets
use spiffecli.Prelude.{
  ◌≡◌, ◌∙◌, ◌↔◌, sym, ap, subst, ◌⊎◌, inl, inr, refl, Bool, Bool-cases, true, ◌||◌, if◌then◌else◌,
  Option, Option-cases, none, some, [], ◌∷◌, ◌++◌, Result, ok, err, Bytes, codes, has_prefix,
  has_prefix-append, is_empty, arith,
}

-- `strings.Index` of a text: what stands before its first place.
unfoldable pub before_first : Bytes → Bytes → Option Bytes
before_first [] p = if has_prefix [] p then some [] else none
before_first (c ∷ s) p =
    let later = before_first s p in
    if has_prefix (c ∷ s) p
    then some []
    else elim later [ none ↦ none | some front ↦ some (c ∷ front) ]

abbrev pub unix_prefix : Bytes
unix_prefix = codes "unix://"

abbrev pub npipe_prefix : Bytes
npipe_prefix = codes "npipe://"

-- `socketValue`, with the flag and the environment variable
unfoldable pub socket_value : Bytes → Bytes → Bytes
socket_value flag env = if is_empty flag then env else flag

-- The refused scheme, up to the end of "://".
pub data SocketError : Type 0 where
  invalid_scheme : Bytes → SocketError

-- `filepath.Abs` is a parameter.
module _ (abs : Bytes → Result Bytes Bytes) where
  abbrev pub absolute : Bytes → Bytes
  absolute path = elim (abs path) [ ok p ↦ p | err e ↦ path ]

  -- After the permitted schemes: any other is refused, and a path is made absolute.
  unfoldable pub refused_or_absolute : Bytes → Result SocketError Bytes
  refused_or_absolute path = elim (before_first path (codes "://")) [
    | some front ↦ err (invalid_scheme (front ++ codes "://"))
    | none ↦ ok (unix_prefix ++ absolute path)
  ]

  unfoldable pub ensure_unix_socket_address : Bytes → Result SocketError Bytes
  ensure_unix_socket_address path =
      if is_empty path
      then ok []
      else if has_prefix path unix_prefix || has_prefix path npipe_prefix
      then ok path
      else refused_or_absolute path

-- An address that the program connects to: none, a Unix socket or a named pipe.
abbrev pub IsLocal : Bytes → Type 0
IsLocal s = (s ≡ []) ⊎ (has_prefix s unix_prefix ≡ true) ⊎ (has_prefix s npipe_prefix ≡ true)

ok_injective : (a b : Bytes) → ◌≡◌ {A = Result SocketError Bytes} (ok a) (ok b) → a ≡ b
ok_injective a b h = ground arith

allowed-cases :
    (path : Bytes)
    → ((has_prefix path unix_prefix || has_prefix path npipe_prefix) ≡ true)
      ↔ ((has_prefix path unix_prefix ≡ true) ⊎ (has_prefix path npipe_prefix ≡ true))
allowed-cases path = or_iff (has_prefix path unix_prefix) (has_prefix path npipe_prefix)
  where
    or_iff : (a b : Bool) → ((a || b) ≡ true) ↔ ((a ≡ true) ⊎ (b ≡ true))
    or_iff a b = ground arith

ensure_of_IsLocal :
    (abs : Bytes → Result Bytes Bytes) (s : Bytes)
    → IsLocal s
    → ensure_unix_socket_address abs s ≡ ok s
unfolding ensure_unix_socket_address refused_or_absolute
ensure_of_IsLocal abs [] h = refl
ensure_of_IsLocal abs (c ∷ s) (inl e) = cc
ensure_of_IsLocal abs (c ∷ s) (inr h) =
    ap (λ b. if b then ok (c ∷ s) else refused_or_absolute abs (c ∷ s))
      ((allowed-cases (c ∷ s)).1 h)

-- Whatever `ensureUnixSocketAddress` returns is local: empty, or an address that starts with unix://
-- or npipe://; and it returns each such address as it is.
pub ensure_unix_socket_address_correct :
    (abs : Bytes → Result Bytes Bytes) (path : Bytes)
    → ((s : Bytes) → ensure_unix_socket_address abs path ≡ ok s → IsLocal s)
      × (IsLocal path → ensure_unix_socket_address abs path ≡ ok path)
unfolding ensure_unix_socket_address refused_or_absolute
ensure_unix_socket_address_correct abs path = (sound path, ensure_of_IsLocal abs path)
  where
    sound : (p s : Bytes) → ensure_unix_socket_address abs p ≡ ok s → IsLocal s
    sound [] s h = inl (sym (ok_injective [] s h))
    sound (c ∷ p) s h =
        elim (Bool-cases (has_prefix (c ∷ p) unix_prefix || has_prefix (c ∷ p) npipe_prefix)) [
          | inl good ↦
              let kept = ap (λ b. if b then ok (c ∷ p) else refused_or_absolute abs (c ∷ p)) good in
              let same = ok_injective (c ∷ p) s (sym kept ∙ h) in
              inr (
                subst (λ x. (has_prefix x unix_prefix ≡ true) ⊎ (has_prefix x npipe_prefix ≡ true))
                  same ((allowed-cases (c ∷ p)).0 good))
          | inr other ↦
              let made =
                ap (λ b. if b then ok (c ∷ p) else refused_or_absolute abs (c ∷ p)) other in
              inr (inl (absolute_unix (c ∷ p) s (sym made ∙ h)))
        ]
      where
        absolute_unix :
            (q t : Bytes) → refused_or_absolute abs q ≡ ok t → has_prefix t unix_prefix ≡ true
        absolute_unix q t k = elim (Option-cases (before_first q (codes "://"))) [
          | inr (front, e) ↦ cc (rw (e, refused_or_absolute) at k)
          | inl e ↦
              let made : ◌≡◌ {A = Result SocketError Bytes} (ok (unix_prefix ++ absolute abs q))
                  (ok t) =
                rw (e, refused_or_absolute) at k in
              subst (λ x. has_prefix x unix_prefix ≡ true)
                (ok_injective (unix_prefix ++ absolute abs q) t made)
                (has_prefix-append unix_prefix (absolute abs q))
        ]
