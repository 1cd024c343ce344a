-- ===== src/Bundle/Inspector.antt =====
-- inspector.go of internal/bundle.
use spiffecli.Prelude.{
  Bool, not, ◌&&◌, List, Result, ok, err, ◌>>=◌, ◌>>◌, guard, map_err, String, ◌=ₛ◌, Bytes,
  is_empty, if◌then◌else◌,
}
use spiffecli.Bundle.{BundleError, PathLib, ReadLib, new_jwk_source, parse_keys}
use spiffecli.Bundle.Output.{
  Jwk, ConvertError, OutputLib, OutputOptions, convert_bundle_to_json, convert_bundle_to_yaml,
  convert_bundle_to_summary, convert_bundle_to_key_ids,
}

pub data InspectError : Type 0 where
  no_location no_keys : InspectError
  source_failed : BundleError → InspectError
  format_not_supported : String → InspectError
  convert_failed : ConvertError → InspectError
  colorizing_failed : String → InspectError

pub record BundleInspector : Type 0 where
  pub location : String
  pub output_format : String
  pub options : OutputOptions

-- `quick.Highlight` of a text with a lexer, and `json.Unmarshal` of a key set.
pub record InspectLib : Type 0 where
  pub paths : PathLib
  pub reading : ReadLib
  pub output : OutputLib
  pub unmarshal : Bytes → Result String (List Jwk)
  pub highlight : String → Bytes → Result String Bytes

-- `FormatMap` at its keys: the converter, with the lexer.
module _ (lib : InspectLib) where
  unfoldable pub convert :
      String → List Jwk → OutputOptions → Result InspectError (String × Result ConvertError Bytes)
  convert format jwks options =
      if format =ₛ "json"
      then ok ("json", convert_bundle_to_json lib.output jwks options)
      else if format =ₛ "yaml"
      then ok ("yaml", convert_bundle_to_yaml lib.output jwks)
      else if format =ₛ "summary"
      then ok ("text", ok (convert_bundle_to_summary lib.output jwks options))
      else if format =ₛ "key-ids"
      then ok ("text", convert_bundle_to_key_ids jwks)
      else err (format_not_supported format)

  unfoldable pub colorize : Bool → String → Bytes → Result InspectError Bytes
  colorize color lexer output =
      if color then map_err colorizing_failed (lib.highlight lexer output) else ok output

  -- `Inspect`
  unfoldable pub inspect : BundleInspector → Result InspectError Bytes
  inspect i = do
    guard (not (i.location =ₛ "")) no_location
    source ← map_err source_failed (new_jwk_source lib.paths i.location)
    jwks ← map_err source_failed (parse_keys lib.reading lib.unmarshal source)
    guard (not (is_empty jwks)) no_keys
    converted ← convert i.output_format jwks i.options
    output ← map_err convert_failed converted.1
    colorize (i.options.color && not (i.output_format =ₛ "summary")) converted.0 output
