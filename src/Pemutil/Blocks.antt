-- ===== src/Pemutil/Blocks.antt =====
-- The loop of `parseBlocks` against the sequence of blocks in the text.
use spiffecli.Prelude.{
  ℕ, zero, suc, ◌<◌, ◌≤◌, ◌≡◌, refl, Option-cases, none, some, List, [], ◌∷◌, ◌++◌, inl, inr,
  Result, Result-cases, ok, ◌>>=◌, String, Bytes, length, arith,
}
use mathlib.Core.List.{append_assoc, append-nil}
use spiffecli.Pemutil.{
  PemBlock, Block, PemError, PemLib, finish, parse_one, parse_loop, parse_blocks,
}

-- The blocks that `pem.Decode` finds in a text, one after the other.
pub data Decodes (lib : PemLib) : Bytes → List PemBlock → Type 0 where
  done : (bytes : Bytes) → lib.decode bytes ≡ none → Decodes lib bytes []
  more :
      (bytes rest : Bytes) (p : PemBlock) (ps : List PemBlock)
      → lib.decode bytes ≡ some (p, rest)
      → Decodes lib rest ps
      → Decodes lib bytes (p ∷ ps)

-- `pem.Decode` returns what follows the block in its input.
abbrev pub IsShrinking : PemLib → Type 0
IsShrinking lib =
    (bytes rest : Bytes) (p : PemBlock)
    → lib.decode bytes ≡ some (p, rest)
    → length rest < length bytes

-- Each block of a sequence is checked and parsed in turn, up to the first failure.
unfoldable pub parse_all : PemLib → List String → ℕ → List PemBlock → Result PemError (List Block)
parse_all lib types number [] = ok []
parse_all lib types number (p ∷ ps) = do
  block ← parse_one lib types number p
  blocks ← parse_all lib types (suc number) ps
  ok (block ∷ blocks)

module _ (lib : PemLib) where
  parse_loop-parse_all :
      (types : List String) (expected : ℕ) (bytes : Bytes) (ps : List PemBlock)
      → Decodes lib bytes ps
      → (fuel number : ℕ) (blocks : List Block) → length ps < fuel
      → parse_loop lib fuel types expected number blocks bytes
        ≡ (parse_all lib types number ps >>= λ bs. finish expected (blocks ++ bs))
  unfolding parse_loop parse_all
  parse_loop-parse_all types expected bytes ps d zero number blocks h = absurd (omega arith)
  parse_loop-parse_all types expected bytes [] (done bytes' e) (suc fuel) number blocks h =
      rw (e, parse_loop, append-nil blocks) refl
  parse_loop-parse_all types expected bytes ps' (more bytes' rest p ps e d) (suc fuel) number blocks
        h =
      elim (Result-cases (parse_one lib types number p)) [
        | inr (failure, bad) ↦ rw (e, parse_loop, bad) refl
        | inl (block, good) ↦
            let ih =
              parse_loop-parse_all types expected rest ps d fuel (suc number) (blocks ++ block ∷ [])
                (omega arith) in
            elim (Result-cases (parse_all lib types (suc number) ps)) [
              | inr (failure, bad) ↦ rw (e, parse_loop, good, ih, bad) refl
              | inl (bs, fine) ↦
                  rw (e, parse_loop, good, ih, fine, append_assoc blocks (block ∷ []) bs) refl
            ]
      ]

  -- Any sequence of blocks of a text, no longer than the text, gives its result.
  pub parse_blocks_of :
      (bytes : Bytes) (ps : List PemBlock) (expected : ℕ) (types : List String)
      → Decodes lib bytes ps
      → length ps ≤ length bytes
      → parse_blocks lib bytes expected types ≡ (parse_all lib types 1 ps >>= finish expected)
  unfolding parse_blocks
  parse_blocks_of bytes ps expected types d h =
      parse_loop-parse_all types expected bytes ps d (suc (length bytes)) 1 [] (omega arith)

  module _ (shrinking : IsShrinking lib) where
    -- A text has a sequence of blocks, no longer than the text.
    decodes :
        (bound : ℕ) (bytes : Bytes)
        → length bytes ≤ bound
        → (ps : List PemBlock) × Decodes lib bytes ps × (length ps ≤ length bytes)
    decodes zero bytes h = elim (Option-cases (lib.decode bytes)) [
      | inl e ↦ ([], done bytes e, omega arith)
      | inr ((p, rest), e) ↦ absurd (omega (arith, shrinking bytes rest p e))
    ]
    decodes (suc bound) bytes h = elim (Option-cases (lib.decode bytes)) [
      | inl e ↦ ([], done bytes e, omega arith)
      | inr ((p, rest), e) ↦
          let (ps, d, short) = decodes bound rest (omega (arith, shrinking bytes rest p e)) in
          (p ∷ ps, more bytes rest p ps e d, omega (arith, shrinking bytes rest p e))
    ]

    -- A text has a finite sequence of blocks, which give the result.
    pub parse_blocks-Decodes :
        (bytes : Bytes) (expected : ℕ) (types : List String)
        → (ps : List PemBlock) × Decodes lib bytes ps
          × (parse_blocks lib bytes expected types ≡ (parse_all lib types 1 ps >>= finish expected))
    unfolding parse_blocks
    parse_blocks-Decodes bytes expected types =
        let (ps, d, short) = decodes (length bytes) bytes (omega arith) in
        (
          ps,
          d,
          parse_loop-parse_all types expected bytes ps d (suc (length bytes)) 1 [] (omega arith),
        )
