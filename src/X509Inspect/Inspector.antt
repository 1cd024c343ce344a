-- ===== src/X509Inspect/Inspector.antt =====
-- The flow of `X509Inspector.Inspect` in inspector.go.
pub mod Flow
use Prim.Native.String
use spiffecli.Prelude.{
  ℕ, Bool, true, false, not, ◌&&◌, ◌||◌, Option, none, some, List, [], ◌∷◌, ◌++◌, map, Result, ok,
  err, ◌>>=◌, ◌>>◌, guard, map_err, String, ◌=ₛ◌, Bytes, is_empty, if◌then◌else◌,
}
use spiffecli.Prelude.Int.{ℤ}
use spiffecli.Cert.{Cert, X509Lib, Format}
use spiffecli.Pemutil.{PemLib, PemError, no_blocks, reading, parse_certificates}
use spiffecli.Timeutil.{ZoneError}
use spiffecli.X509Inspect.Chain.{ChainError, Note, convert_certs_to_chain}
use spiffecli.X509Inspect.Tree.{TreeError, TreeNote, Op, convert_certs_to_tree}
use spiffecli.X509Inspect.Svid.{Reason, check_is_svid}
use spiffecli.X509Inspect.Summary.{
  SummaryLib, OutputOptions, convert_certs_to_json, convert_certs_to_yaml, convert_certs_to_summary,
}

pub record X509Inspector : Type 0 where
  pub filename : String
  pub bundle : String
  pub is_svid : Bool
  pub output_format : String
  pub shortest_path : Bool
  pub tree_fields : String
  pub output_options : OutputOptions

-- What goes to stderr.
pub data Message : Type 0 where
  bundle_ignored shortest_path_ignored tree_fields_ignored : String → Message
  chain_note : Note → Message
  tree_note : TreeNote → Message

pub data InspectError : Type 0 where
  no_filename index_panic : InspectError
  no_certificates : String → InspectError
  unreadable : String → PemError → InspectError
  not_svid : List Reason → InspectError
  format_not_supported : String → InspectError
  convert_failed : (label : String) → String → InspectError
  bad_time_zone : ZoneError → InspectError
  chain_failed : ChainError → InspectError
  tree_failed : TreeError → InspectError
  colorizing_failed : (label : String) → String → InspectError

-- Encoding/pem and crypto/x509 with `os.ReadFile`, `strings.Split` at commas, `strings.TrimSpace`,
-- the drawing of the trees, `quick.Highlight` with a lexer, and `time.Now`.
pub record InspectLib (Z : Type 0) : Type 0 where
  pub pem : PemLib
  pub x509 : X509Lib
  pub fmt : Format
  pub summary : SummaryLib Z
  pub split_commas : String → List String
  pub trim_space : String → String
  pub draw : List (List Op) → List ℕ
  pub highlight : String → List ℕ → Result String (List ℕ)
  pub now : ℤ

abbrev pub is_chain_or_tree : String → Bool
is_chain_or_tree format = format =ₛ "chain" || format =ₛ "tree"

-- A message under a test
abbrev pub message_if : Bool → Message → List Message
message_if b m = if b then m ∷ [] else []

unfoldable pub warnings : X509Inspector → List Message
warnings i =
    message_if (not (i.bundle =ₛ "") && not (is_chain_or_tree i.output_format))
      (bundle_ignored i.output_format)
    ++ (message_if (i.shortest_path && not (i.output_format =ₛ "chain"))
          (shortest_path_ignored i.output_format)
        ++ message_if (not (i.tree_fields =ₛ "") && not (i.output_format =ₛ "tree"))
            (tree_fields_ignored i.output_format))

-- The error of a file that has no certificates, or cannot be read.
abbrev pub file_error : String → PemError → InspectError
file_error file no_blocks = no_certificates file
file_error file e = unreadable file e

-- What a converter gives: messages, and the text or an error; `label` and `lexer` are its formatter's.
pub record Converted : Type 0 where
  pub label : String
  pub lexer : String
  pub messages : List Message
  pub output : Result InspectError (List ℕ)

-- The certificates, or the outcome for `IsSvid`
pub data Loaded : Type 0 where
  answered : Loaded
  certificates : List Cert → Loaded

module _ {Z : Type 0} (lib : InspectLib Z) where
  -- `pemutil.LoadCertificates`, with its error as the inspector wraps it
  unfoldable pub load_certificates : String → Result InspectError (List Cert)
  load_certificates file =
      map_err (file_error file)
        (do bytes ← map_err reading (lib.pem.read_file file); parse_certificates lib.pem bytes)

  -- `checkIsSvid(certs[0])`
  unfoldable pub check_first : List Cert → Result InspectError (Unit {0})
  check_first [] = err index_panic
  check_first (cert ∷ certs) =
      guard (check_is_svid lib.x509 cert).0 (not_svid (check_is_svid lib.x509 cert).1)

  unfoldable pub trim_fields : List String → List String
  trim_fields [] = []
  trim_fields (f ∷ fs) =
      let rest = trim_fields fs in
      if not (lib.trim_space f =ₛ "") then lib.trim_space f ∷ rest else rest

  -- `chainOpts.TreeFields`
  unfoldable pub tree_fields : X509Inspector → List String
  tree_fields i =
      if not (i.tree_fields =ₛ "") && i.output_format =ₛ "tree"
      then trim_fields (lib.split_commas i.tree_fields)
      else []

  -- `chainOpts.BundleCerts`
  unfoldable pub bundle_certs : X509Inspector → Result InspectError (List Cert)
  bundle_certs i =
      let bundled = load_certificates i.bundle in
      if not (i.bundle =ₛ "") && is_chain_or_tree i.output_format then bundled else ok []

  -- `FormatMap` and its converters
  unfoldable pub convert :
      X509Inspector → List Cert → List Cert → List String → Result InspectError Converted
  convert i certs bundle fields =
      let chain = convert_certs_to_chain lib.x509 certs bundle i.shortest_path in
      let tree = convert_certs_to_tree lib.x509 lib.fmt certs bundle fields in
      if i.output_format =ₛ "json"
      then ok (record {
        label = "JSON";
        lexer = "json";
        messages = [];
        output =
            map_err (convert_failed "JSON")
              (convert_certs_to_json lib.summary lib.x509 lib.fmt certs i.output_options);
      })
      else if i.output_format =ₛ "yaml"
      then ok (record {
        label = "YAML";
        lexer = "yaml";
        messages = [];
        output =
            map_err (convert_failed "YAML")
              (convert_certs_to_yaml lib.summary lib.x509 lib.fmt certs);
      })
      else if i.output_format =ₛ "summary"
      then ok (record {
        label = "Summary";
        lexer = "text";
        messages = [];
        output =
            map_err bad_time_zone (
              convert_certs_to_summary lib.summary lib.x509 lib.fmt certs i.output_options lib.now);
      })
      else if i.output_format =ₛ "chain"
      then ok (record {
        label = "Chain";
        lexer = "text";
        messages = map chain_note chain.0;
        output = map_err chain_failed chain.1;
      })
      else if i.output_format =ₛ "tree"
      then ok (record {
        label = "Tree";
        lexer = "text";
        messages = elim tree [ ok t ↦ map tree_note t.1 | err e ↦ [] ];
        output = map_err tree_failed (tree >>= λ t. ok (lib.draw t.0));
      })
      else err (format_not_supported i.output_format)

  unfoldable pub colorize : Bool → String → String → List ℕ → Result InspectError (List ℕ)
  colorize color label lexer output =
      if color && not (lexer =ₛ "text")
      then map_err (colorizing_failed label) (lib.highlight lexer output)
      else ok output

  -- The part of `Inspect` up to `IsSvid`
  unfoldable pub load : X509Inspector → Result InspectError Loaded
  load i = do
    guard (not (i.filename =ₛ "")) no_filename
    certs ← load_certificates i.filename
    (if i.is_svid then (check_first certs >> ok answered) else ok (certificates certs))

  unfoldable pub prepare : X509Inspector → List Cert → Result InspectError Converted
  prepare i certs = do bundle ← bundle_certs i; convert i certs bundle (tree_fields i)

  unfoldable pub finish :
      X509Inspector → Result InspectError Converted → List Message × Result InspectError (List ℕ)
  finish i (err e) = (warnings i, err e)
  finish i (ok c) =
      (warnings i ++ c.messages, c.output >>= colorize i.output_options.color c.label c.lexer)

  unfoldable pub respond :
      X509Inspector → Result InspectError Loaded → List Message × Result InspectError (List ℕ)
  respond i (err e) = ([], err e)
  respond i (ok answered) = ([], ok [])
  respond i (ok (certificates certs)) = finish i (prepare i certs)

  -- `Inspect`: what goes to stderr, and the text or the error.
  unfoldable pub inspect : X509Inspector → List Message × Result InspectError (List ℕ)
  inspect i = respond i (load i)
