-- ===== src/X509Inspect/Tree.antt =====
-- tree.go: the certificate forest. The calls of `list.Writer` are a list of operations, since the
-- drawing is the writer's; notes for stderr stand beside them. The map `fpByPtr` caches the
-- fingerprint of each listed certificate, so a look-up in it is `cert_fingerprint`.
pub mod Children
pub mod Visit
pub mod Forest
use Prim.Native.String
use spiffecli.Prelude.{
  ℕ, zero, suc, Bool, true, false, Option, none, some, List, [], ◌∷◌, ◌++◌, Result, ok, err, String,
  mem, lookup, length, ◌==◌, if◌then◌else◌, ◌=ₛ◌, one_of, codes, is_empty,
}
use spiffecli.Cert.{
  PublicKey, rsa_public, ecdsa_public, ed25519_public, other_public, Cert, X509Lib, Format,
}
use spiffecli.X509Inspect.Terminal.{sanitize_for_terminal}
use spiffecli.X509Inspect.Links.{cert_fingerprint, extract_spiffe_id, union_certs, build_parent_map}

pub data TreeError : Type 0 where
  unknown_field : List ℕ → TreeError
  out_of_fuel : TreeError

pub data TreeNote : Type 0 where
  no_root_found : (serial : ℕ) → (fp : ℕ) → TreeNote
  cycle_at : (serial : ℕ) → (fp : ℕ) → TreeNote

-- The calls of the list writer.
pub data Op : Type 0 where
  append_item : List ℕ → Op
  indent un_indent : Op

pub record TreeState : Type 0 where
  pub visited : List ℕ
  pub ops : List Op
  pub notes : List TreeNote

abbrev pub allowed_tree_fields : List String
allowed_tree_fields =
    "subject" ∷ "issuer" ∷ "spiffe-id" ∷ "serial" ∷ "not-after" ∷ "key-algorithm" ∷ "sha256-fp" ∷ []

unfoldable pub is_allowed_tree_field : String → Bool
is_allowed_tree_field f = one_of f allowed_tree_fields

-- the loop over `fields` that returns at the first one that is not allowed
unfoldable pub first_unknown : List String → Option String
first_unknown [] = none
first_unknown (f ∷ fs) =
    let rest = first_unknown fs in if is_allowed_tree_field f then rest else some f

-- `strings.Join(lines, sep)`
unfoldable pub join : List ℕ → List (List ℕ) → List ℕ
join sep [] = []
join sep (line ∷ []) = line
join sep (line ∷ next ∷ lines) = line ++ (sep ++ join sep (next ∷ lines))

-- `keyAlgorithmString` of certificate.go
unfoldable pub key_algorithm_string : Format → PublicKey → List ℕ
key_algorithm_string fmt (ecdsa_public bit_size curve x y) =
    codes "ECDSA P-" ++ fmt.decimal bit_size
key_algorithm_string fmt (rsa_public bits n e) = codes "RSA " ++ fmt.decimal bits
key_algorithm_string fmt (ed25519_public key) = codes "Ed25519"
key_algorithm_string fmt (other_public t) = codes "unknown"

-- `children[fp]`, empty where the map has no entry; and the append to it
abbrev pub get_children : ℕ → List (ℕ × List Cert) → List Cert
get_children fp [] = []
get_children fp ((k, cs) ∷ m) = if fp == k then cs else get_children fp m

abbrev pub add_child : ℕ → Cert → List (ℕ × List Cert) → List (ℕ × List Cert)
add_child fp cert m = (fp, get_children fp m ++ cert ∷ []) ∷ m

module _ (lib : X509Lib) where
  unfoldable pub children_loop :
      List (ℕ × Cert) → List Cert → List (ℕ × List Cert) → List (ℕ × List Cert)
  children_loop parents [] m = m
  children_loop parents (cert ∷ cs) m =
      children_loop parents cs (elim (lookup (cert_fingerprint lib cert) parents) [
        | none ↦ m
        | some parent ↦ add_child (cert_fingerprint lib parent) cert m
      ])

  unfoldable pub children_map : List Cert → List (ℕ × List Cert)
  children_map all = children_loop (build_parent_map lib all) all []

  unfoldable pub roots_loop : List (ℕ × Cert) → List Cert → List Cert
  roots_loop parents [] = []
  roots_loop parents (cert ∷ cs) =
      let rest = roots_loop parents cs in
      elim (lookup (cert_fingerprint lib cert) parents) [ none ↦ cert ∷ rest | some p ↦ rest ]

  -- The roots, with the note of the fallback.
  unfoldable pub forest_roots : List Cert → List Cert × List TreeNote
  forest_roots [] = ([], [])
  forest_roots (synth ∷ rest) =
      elim (roots_loop (build_parent_map lib (synth ∷ rest)) (synth ∷ rest)) [
        | root ∷ roots ↦ (root ∷ roots, [])
        | [] ↦ (synth ∷ [], no_root_found synth.serial (cert_fingerprint lib synth) ∷ [])
      ]

  module _ (fmt : Format) where
    unfoldable pub tree_field_value : Cert → String → List ℕ
    tree_field_value cert field =
        if field =ₛ "subject"
        then sanitize_for_terminal cert.subject
        else if field =ₛ "issuer"
        then sanitize_for_terminal cert.issuer
        else if field =ₛ "spiffe-id"
        then (if extract_spiffe_id lib cert =ₛ ""
            then codes "(none)"
            else sanitize_for_terminal (codes (extract_spiffe_id lib cert)))
        else if field =ₛ "serial"
        then fmt.text16 cert.serial
        else if field =ₛ "not-after"
        then fmt.rfc3339 cert.not_after
        else if field =ₛ "key-algorithm"
        then key_algorithm_string fmt cert.public_key
        else if field =ₛ "sha256-fp"
        then fmt.hex_digest (lib.sha256 cert.raw)
        else []

    -- the fields after the first
    unfoldable pub more_lines : Cert → List String → List (List ℕ)
    more_lines cert [] = []
    more_lines cert (field ∷ fields) =
        (codes field ++ (codes ": " ++ tree_field_value cert field)) ∷ more_lines cert fields

    unfoldable pub node_lines : Cert → List String → List (List ℕ)
    node_lines cert [] = []
    node_lines cert (field ∷ fields) = tree_field_value cert field ∷ more_lines cert fields

    unfoldable pub node_label : Cert → List String → List ℕ
    node_label cert fields =
        let lines = node_lines cert fields in
        join (10 ∷ []) (if is_empty lines then sanitize_for_terminal cert.subject ∷ [] else lines)

    -- the loop over `children[fp]` in `writeTreeNode`
    unfoldable pub write_children :
        (Cert → TreeState → Option TreeState) → List Cert → TreeState → Option TreeState
    write_children visit [] s = some s
    write_children visit (child ∷ cs) s = elim (visit child s) [
      | none ↦ none
      | some s' ↦ write_children visit cs s'
    ]

    -- `writeTreeNode` on fuel; none when it runs out.
    unfoldable pub write_tree_node :
        ℕ → List (ℕ × List Cert) → List String → Cert → TreeState → Option TreeState
    write_tree_node zero children fields cert s = none
    write_tree_node (suc fuel) children fields cert s =
        let fp = cert_fingerprint lib cert in
        if mem fp s.visited
        then some (record s { notes = s.notes ++ cycle_at cert.serial fp ∷ [] })
        else elim (write_children (write_tree_node fuel children fields) (get_children fp children)
            (record {
              visited = fp ∷ s.visited;
              ops = s.ops ++ append_item (node_label cert fields) ∷ indent ∷ [];
              notes = s.notes;
            })) [ none ↦ none | some t ↦ some (record t { ops = t.ops ++ un_indent ∷ [] }) ]

    -- One writer for each root, with `visited` empty at each.
    unfoldable pub write_roots :
        ℕ
        → List (ℕ × List Cert)
        → List String
        → List Cert
        → List TreeNote
        → Option (List (List Op) × List TreeNote)
    write_roots fuel children fields [] notes = some ([], notes)
    write_roots fuel children fields (root ∷ roots) notes =
        elim (write_tree_node fuel children fields root
          (record { visited = []; ops = []; notes = notes })) [
            | none ↦ none
            | some t ↦ elim (write_roots fuel children fields roots t.notes) [
              | none ↦ none
              | some (trees, all_notes) ↦ some (t.ops ∷ trees, all_notes)
            ]
          ]

    -- `convertCertsToTree` up to the drawing of each tree.
    unfoldable pub convert_certs_to_tree :
        List Cert → List Cert → List String → Result TreeError (List (List Op) × List TreeNote)
    convert_certs_to_tree certs bundle_certs tree_fields =
        let fields = if is_empty tree_fields then "subject" ∷ [] else tree_fields in
        let all = union_certs lib certs bundle_certs in
        let (roots, notes) = forest_roots all in
        elim (first_unknown fields) [
          | some f ↦ err (unknown_field (sanitize_for_terminal (codes f)))
          | none ↦ elim (write_roots (suc (length all)) (children_map all) fields roots notes) [
            | none ↦ err out_of_fuel
            | some trees ↦ ok trees
          ]
        ]
