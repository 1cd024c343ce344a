-- ===== src/JwtInspect/Inspector.antt =====
-- inspector.go and jwtutil.go of internal/jwtinspect: the flow of `Inspect`.
pub mod Flow
use Prim.Native.String
use spiffecli.Prelude.{
  ℕ, Bool, true, false, not, ◌&&◌, List, [], ◌∷◌, Result, ok, err, ◌>>=◌, ◌>>◌, guard, map_err,
  String, ◌=ₛ◌, if◌then◌else◌,
}
use spiffecli.Prelude.Int.{ℤ}
use spiffecli.Jwt.{Token, JoseLib}
use spiffecli.JwtInspect.{JwtReason, is_svid}
use spiffecli.JwtInspect.Output.{
  OutputLib, OutputOptions, ConvertError, convert_token_to_json, convert_token_to_yaml,
  convert_token_to_summary,
}

pub record JwtInspector : Type 0 where
  pub filename : String
  pub is_svid : Bool
  pub output_format : String
  pub output_options : OutputOptions

pub data InspectError : Type 0 where
  no_filename not_deserialized token_not_svid : InspectError
  not_read : String → InspectError
  svid_check_failed : String → InspectError
  format_not_supported : String → InspectError
  convert_failed : (label : String) → ConvertError → InspectError
  colorizing_failed : (label : String) → String → InspectError

-- `os.ReadFile`, `jwt.ParseSigned` for all the algorithms of the table, `quick.Highlight` with a
-- lexer, and `time.Now`.
pub record InspectLib (M Z : Type 0) : Type 0 where
  pub jose : JoseLib
  pub output : OutputLib M Z
  pub read_file : String → Result String String
  pub parse_signed : String → Result String Token
  pub highlight : String → List ℕ → Result String (List ℕ)
  pub now : ℤ

-- The label and the lexer of a formatter, with what its converter gives.
pub record Converted : Type 0 where
  pub label : String
  pub lexer : String
  pub output : Result ConvertError (List ℕ)

abbrev pub to_not_deserialized : String → InspectError
to_not_deserialized e = not_deserialized

module _ {M Z : Type 0} (lib : InspectLib M Z) where
  -- `FormatMap` and its converters
  unfoldable pub convert : String → Token → OutputOptions → Result InspectError Converted
  convert format tok options =
      if format =ₛ "json"
      then ok (record {
        label = "JSON";
        lexer = "json";
        output = convert_token_to_json lib.jose lib.output tok options;
      })
      else if format =ₛ "yaml"
      then ok (record {
        label = "YAML";
        lexer = "yaml";
        output = convert_token_to_yaml lib.jose lib.output tok options;
      })
      else if format =ₛ "summary"
      then ok (record {
        label = "Summary";
        lexer = "text";
        output = convert_token_to_summary lib.jose lib.output tok options lib.now;
      })
      else err (format_not_supported format)

  unfoldable pub colorize : Bool → String → String → List ℕ → Result InspectError (List ℕ)
  colorize color label lexer text =
      if color then map_err (colorizing_failed label) (lib.highlight lexer text) else ok text

  -- `DeserializeJwt` of the file's text
  unfoldable pub load_token : String → Result InspectError Token
  load_token filename = do
    guard (not (filename =ₛ "")) no_filename
    text ← map_err not_read (lib.read_file filename)
    map_err to_not_deserialized (lib.parse_signed text)

  unfoldable pub answer_svid : Token → Result InspectError (List ℕ)
  answer_svid tok = do
    answer ← map_err svid_check_failed (is_svid lib.jose tok)
    guard answer.0 token_not_svid
    ok []

  unfoldable pub show_token : JwtInspector → Token → Result InspectError (List ℕ)
  show_token i tok = do
    converted ← convert i.output_format tok i.output_options
    text ← map_err (convert_failed converted.label) converted.output
    colorize (i.output_options.color && not (i.output_format =ₛ "summary")) converted.label
        converted.lexer text

  unfoldable pub respond : JwtInspector → Token → Result InspectError (List ℕ)
  respond i tok = let shown = show_token i tok in if i.is_svid then answer_svid tok else shown

  -- `Inspect`
  unfoldable pub inspect : JwtInspector → Result InspectError (List ℕ)
  inspect i = load_token i.filename >>= respond i
