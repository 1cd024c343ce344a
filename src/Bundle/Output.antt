-- ===== src/Bundle/Output.antt =====
-- jwkoutput.go: the converters of a key set.
use spiffecli.Prelude.{
  ℕ, ◌+◌, Bool, List, [], ◌∷◌, ◌++◌, map, Result, ok, err, ◌>>=◌, map_err, String, ◌=ₛ◌, Bytes,
  ◌++ₛ◌, is_empty, length, if◌then◌else◌,
}

-- The Go type of a key, with what the summary reads of it.
pub data JwkKey : Type 0 where
  rsa_public rsa_private : (bit_len : ℕ) → JwkKey
  ecdsa_public ecdsa_private : (curve : String) → JwkKey
  ed25519_public ed25519_private symmetric : JwkKey
  other_type : (go_type : String) → JwkKey

pub record Jwk : Type 0 where
  pub key : JwkKey
  pub key_id : Bytes
  pub usage : String

pub data ConvertError : Type 0 where
  key_id_missing : ℕ → ConvertError
  json_failed yaml_failed : String → ConvertError

-- `MarshalIndent` and `Marshal` of a key set, the YAML of what its JSON decodes to, the decimal digits,
-- and the drawing of a label with the fields of each key.
pub record OutputLib : Type 0 where
  pub marshal_indent : List Jwk → Result String Bytes
  pub marshal : List Jwk → Result String Bytes
  pub yaml_of_json : Bytes → Result String Bytes
  pub decimal : ℕ → String
  pub draw : Bool → String → List (List (String × Bytes)) → Bytes
  pub text : String → Bytes

pub record OutputOptions : Type 0 where
  pub indent : Bool
  pub color : Bool

-- `ConvertBundleToKeyIDs` from an index on
unfoldable pub key_ids_from : ℕ → List Jwk → Result ConvertError Bytes
key_ids_from i [] = ok []
key_ids_from i (k ∷ ks) =
    let rest = key_ids_from (i + 1) ks in
    if is_empty k.key_id
    then err (key_id_missing i)
    else elim rest [ err e ↦ err e | ok ids ↦ ok (k.key_id ++ 10 ∷ ids) ]

abbrev pub convert_bundle_to_key_ids : List Jwk → Result ConvertError Bytes
convert_bundle_to_key_ids = key_ids_from 0

-- `summarizeKeyUsage`
unfoldable pub summarize_key_usage : Jwk → String
summarize_key_usage k =
    if k.usage =ₛ "sig"
    then "Signature"
    else if k.usage =ₛ "enc"
    then "Encryption"
    else if k.usage =ₛ ""
    then "Unspecified"
    else k.usage

module _ (lib : OutputLib) where
  unfoldable pub convert_bundle_to_json : List Jwk → OutputOptions → Result ConvertError Bytes
  convert_bundle_to_json jwks options =
      map_err json_failed (if options.indent then lib.marshal_indent jwks else lib.marshal jwks)

  unfoldable pub convert_bundle_to_yaml : List Jwk → Result ConvertError Bytes
  convert_bundle_to_yaml jwks = do
    json_data ← map_err json_failed (lib.marshal jwks)
    map_err yaml_failed (lib.yaml_of_json json_data)

  -- `summarizeKeyType`: the type, and the label and the text of its description
  unfoldable pub summarize_key_type : JwkKey → String × String × String
  summarize_key_type (rsa_public n) = ("RSA", "Key Size", lib.decimal n)
  summarize_key_type (rsa_private n) = ("RSA", "Key Size", lib.decimal n)
  summarize_key_type (ecdsa_public c) = ("Elliptic Curve", "Curve", c)
  summarize_key_type (ecdsa_private c) = ("Elliptic Curve", "Curve", c)
  summarize_key_type ed25519_public = ("Elliptic Curve", "Curve", "Ed25519")
  summarize_key_type ed25519_private = ("Elliptic Curve", "Curve", "Ed25519")
  summarize_key_type symmetric = ("Symmetric", "Key Description", "Unknown")
  summarize_key_type (other_type t) = ("Unknown type: " ++ₛ t, "Key Description", "Unknown")

  unfoldable pub summary_fields : Jwk → List (String × Bytes)
  summary_fields k =
      let (key_type, describer, description) = summarize_key_type k.key in
      ("Key ID", k.key_id)
      ∷ ("Key Type", lib.text key_type)
      ∷ (describer, lib.text description)
      ∷ ("Use", lib.text (summarize_key_usage k))
      ∷ []

  unfoldable pub summary_label : List Jwk → String
  summary_label (k ∷ []) = "One key found"
  summary_label ks = "Found " ++ₛ lib.decimal (length ks) ++ₛ " keys"

  -- `ConvertBundleToSummary`
  unfoldable pub convert_bundle_to_summary : List Jwk → OutputOptions → Bytes
  convert_bundle_to_summary jwks options =
      lib.draw options.color (summary_label jwks) (map summary_fields jwks) ++ 10 ∷ []
