-- ===== src/Pemutil/Outcomes.antt =====
-- What the blocks of a text give, by their types and their number.
use spiffecli.Prelude.{
  ℕ, suc, ◌<◌, ◌≡◌, refl, none, some, List, [], ◌∷◌, inl, inr, Result, Result-cases, ok, ◌>>=◌,
  String, Bytes, length, arith, err, lookup_text, ◌⊎◌, ◌↔◌, ◌≢◌, In, any, ◌=ₛ◌, =ₛ_iff, Bool-cases,
  true, false, not, ◌&&◌, ltb, ◌==◌, ==_iff, subst, sym,
}
use spiffecli.Pemutil.{
  PemBlock, Object, no_object, cert_object, request_object, private_object, public_object, Block,
  PemError, no_blocks, block_count, block_type, block_parse, PemLib, object_map, type_allowed,
  finish, parse_object, parse_one, parse_blocks,
}
use spiffecli.Pemutil.Blocks.{Decodes, IsShrinking, parse_all, parse_blocks-Decodes}

-- The parser of each type of block.
abbrev pub parsers : PemLib → List (String × (Bytes → Result String Object))
parsers lib =
    ("CERTIFICATE", λ b. object_map cert_object (lib.parse_certificate b))
    ∷ ("CERTIFICATE REQUEST", λ b. object_map request_object (lib.parse_request b))
    ∷ ("RSA PRIVATE KEY", λ b. object_map private_object (lib.parse_pkcs1 b))
    ∷ ("EC PRIVATE KEY", λ b. object_map private_object (lib.parse_ec b))
    ∷ ("PRIVATE KEY", λ b. object_map private_object (lib.parse_pkcs8 b))
    ∷ ("PUBLIC KEY", λ b. object_map public_object (lib.parse_pkix b))
    ∷ []

-- The object of a block, none where its type is not in the table.
abbrev pub object_of : PemLib → PemBlock → Result String Object
object_of lib p = elim (lookup_text p.kind (parsers lib)) [
  | none ↦ ok no_object
  | some parser ↦ parser p.bytes
]

-- Every type is expected, or this one is.
abbrev pub IsExpected : List String → String → Type 0
IsExpected types kind = (types ≡ []) ⊎ In kind types

-- What the blocks of a text give, from a number on: all their objects, or the failure of the first
-- block of another type than expected or that does not parse.
pub data Outcome (lib : PemLib) (types : List String)
    : ℕ → List PemBlock → Result PemError (List Block) → Type 0 where
  finished : (number : ℕ) → Outcome lib types number [] (ok [])
  parsed :
      (number : ℕ) (p : PemBlock) (ps : List PemBlock) (o : Object) (blocks : List Block)
      → IsExpected types p.kind
      → object_of lib p ≡ ok o
      → Outcome lib types (suc number) ps (ok blocks)
      → Outcome lib types number (p ∷ ps) (ok (record { kind = p.kind; object = o } ∷ blocks))
  later :
      (number : ℕ) (p : PemBlock) (ps : List PemBlock) (o : Object) (e : PemError)
      → IsExpected types p.kind
      → object_of lib p ≡ ok o
      → Outcome lib types (suc number) ps (err e)
      → Outcome lib types number (p ∷ ps) (err e)
  refused :
      (number : ℕ) (p : PemBlock) (ps : List PemBlock)
      → ¬ IsExpected types p.kind
      → Outcome lib types number (p ∷ ps) (err (block_type types p.kind))
  unparsed :
      (number : ℕ) (p : PemBlock) (ps : List PemBlock) (e : String)
      → IsExpected types p.kind
      → object_of lib p ≡ err e
      → Outcome lib types number (p ∷ ps) (err (block_parse p.kind number e))

-- The tests on the number of blocks, where zero expects any number but none.
pub data IsFinal (expected : ℕ)
    : Result PemError (List Block) → Result PemError (List Block) → Type 0 where
  failed : (e : PemError) → IsFinal expected (err e) (err e)
  nothing : IsFinal expected (ok []) (err no_blocks)
  miscounted :
      (b : Block) (bs : List Block)
      → 0 < expected
      → length (b ∷ bs) ≢ expected
      → IsFinal expected (ok (b ∷ bs)) (err (block_count expected (length (b ∷ bs))))
  counted :
      (b : Block) (bs : List Block)
      → (expected ≡ 0) ⊎ (length (b ∷ bs) ≡ expected)
      → IsFinal expected (ok (b ∷ bs)) (ok (b ∷ bs))

any_iff :
    (kind : String) (types : List String) → (any (λ t. t =ₛ kind) types ≡ true) ↔ In kind types
any_iff kind [] = (λ h. cc, λ h. absurd h)
any_iff kind (t ∷ types) = ground (arith, any_iff kind types, =ₛ_iff t kind)

type_allowed_iff :
    (types : List String) (kind : String) → (type_allowed types kind ≡ true) ↔ IsExpected types kind
type_allowed_iff [] kind = (λ h. inl refl, λ h. refl)
type_allowed_iff (t ∷ types) kind = (
  λ h. inr ((any_iff kind (t ∷ types)).0 h),
  λ h. elim h [ inl e ↦ cc | inr k ↦ (any_iff kind (t ∷ types)).1 k ],
)

module _ (lib : PemLib) where
  parse_object-object_of : (p : PemBlock) → parse_object lib p ≡ object_of lib p
  unfolding parse_object
  parse_object-object_of p = ground arith

  parse_one-good :
      (types : List String) (number : ℕ) (p : PemBlock) (o : Object)
      → type_allowed types p.kind ≡ true
      → object_of lib p ≡ ok o
      → parse_one lib types number p ≡ ok (record { kind = p.kind; object = o })
  unfolding parse_one
  parse_one-good types number p o allowed made =
      rw (parse_one, allowed, parse_object-object_of p, made) refl

  parse_one-unparsed :
      (types : List String) (number : ℕ) (p : PemBlock) (e : String)
      → type_allowed types p.kind ≡ true
      → object_of lib p ≡ err e
      → parse_one lib types number p ≡ err (block_parse p.kind number e)
  unfolding parse_one
  parse_one-unparsed types number p e allowed made =
      rw (parse_one, allowed, parse_object-object_of p, made) refl

  parse_one-refused :
      (types : List String) (number : ℕ) (p : PemBlock)
      → type_allowed types p.kind ≡ false
      → parse_one lib types number p ≡ err (block_type types p.kind)
  unfolding parse_one
  parse_one-refused types number p other = rw (parse_one, other) refl

  parse_all-Outcome :
      (types : List String) (number : ℕ) (ps : List PemBlock)
      → Outcome lib types number ps (parse_all lib types number ps)
  unfolding parse_all
  parse_all-Outcome types number [] = finished number
  parse_all-Outcome types number (p ∷ ps) = elim (Bool-cases (type_allowed types p.kind)) [
    | inr other ↦
        rw (parse_one-refused types number p other, parse_all)
          (refused number p ps (λ k. cc ((type_allowed_iff types p.kind).1 k, other)))
    | inl allowed ↦
        let expected = (type_allowed_iff types p.kind).0 allowed in
        elim (Result-cases (object_of lib p)) [
          | inr (e, bad) ↦
              rw (parse_one-unparsed types number p e allowed bad, parse_all)
                (unparsed number p ps e expected bad)
          | inl (o, good) ↦
              let below = parse_all-Outcome types (suc number) ps in
              let one = parse_one-good types number p o allowed good in
              elim (Result-cases (parse_all lib types (suc number) ps)) [
                | inr (e, bad) ↦
                    rw (one, bad, parse_all) (later number p ps o e expected good (rw bad at below))
                | inl (bs, fine) ↦
                    rw (one, fine, parse_all)
                      (parsed number p ps o bs expected good (rw fine at below))
              ]
        ]
  ]

  finish-IsFinal :
      (expected : ℕ) (r : Result PemError (List Block)) → IsFinal expected r (r >>= finish expected)
  unfolding finish
  finish-IsFinal expected (err e) = failed e
  finish-IsFinal expected (ok []) = nothing
  finish-IsFinal expected (ok (b ∷ bs)) =
      elim (Bool-cases (ltb 0 expected && not (length (b ∷ bs) == expected))) [
        | inl wrong ↦
            rw (wrong, finish)
              (miscounted b bs (ground (arith, wrong))
                (λ e. ground (arith, wrong, e, ==_iff (length (b ∷ bs)) expected)))
        | inr right ↦ rw (right, finish) (counted b bs (count expected (length (b ∷ bs)) right))
      ]
    where
      count : (n m : ℕ) → (ltb 0 n && not (m == n)) ≡ false → (n ≡ 0) ⊎ (m ≡ n)
      count n m h = ground (arith, ==_iff m n)

  module _ (shrinking : IsShrinking lib) where
    -- `parseBlocks` ends on every text, which has a finite sequence of PEM blocks. In turn each of them
    -- has to be of an expected type and is parsed by the parser of its type: the first that is of another
    -- type or does not parse gives the failure, with the type, and the number where it does not parse.
    -- Where all are good they are the result, unless there are none, or not as many as expected.
    pub parse_blocks_correct :
        (bytes : Bytes) (expected : ℕ) (types : List String)
        → (ps : List PemBlock) × (r : Result PemError (List Block)) × Decodes lib bytes ps
          × Outcome lib types 1 ps r
          × IsFinal expected r (parse_blocks lib bytes expected types)
    parse_blocks_correct bytes expected types =
        let (ps, d, same) = parse_blocks-Decodes lib shrinking bytes expected types in
        let r = parse_all lib types 1 ps in
        (
          ps,
          r,
          d,
          parse_all-Outcome types 1 ps,
          subst (λ x. IsFinal expected r x) (sym same) (finish-IsFinal expected r),
        )
