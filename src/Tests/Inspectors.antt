-- ===== src/Tests/Inspectors.antt =====
-- The inspectors of certificates and tokens, and a summary.
use spiffecli.Prelude.{
  ℕ, ◌≡◌, ◌↔◌, refl, true, false, List, [], ◌∷◌, Result, ok, err, String, All, codes, arith,
}
use spiffecli.Cert.{Format}
use spiffecli.Timeutil.{ZoneError}
use spiffecli.Style.{StyleLib}
use spiffecli.X509Inspect.Terminal.{IsPlain}
use spiffecli.X509Inspect.Summary.{SummaryLib, OutputOptions, convert_certs_to_summary, time_zone}
use spiffecli.X509Inspect.Summary.Safety.{convert_certs_to_summary-IsPlain}
use spiffecli.X509Inspect.Inspector as X509Flow
use spiffecli.X509Inspect.Inspector.Flow.{IsSafe, IsSvidFile, inspect_correct}
use spiffecli.JwtInspect.Output as JwtOutput
use spiffecli.JwtInspect.Inspector as JwtFlow
use spiffecli.JwtInspect.Inspector.Flow as JwtFlowLaws
use spiffecli.JwtInspect.Inspector.Flow.{inspect_svid_iff}
use spiffecli.Tests.Fixtures.{lib, fmt, both, seconds}
use spiffecli.Tests.Libraries.{jose, parsed_token}
use spiffecli.Tests.Services.{pem, pem-IsShrinking}

abbrev style : StyleLib
style = record { color_name = λ s. s; color_value = λ s. s; error_style = λ color s. s }

abbrev plain_fmt : Format
plain_fmt = record fmt { decimal = λ n. codes "1" }

abbrev summary : SummaryLib (Unit {0})
summary = record {
  style = style;
  load_location = λ name. ok tt;
  local = tt;
  time_in = λ zone t. codes "2026";
  duration = λ d. codes "1 hour";
  marshal_indent = λ infos. ok (codes "[]");
  marshal = λ infos. ok (codes "[]");
  marshal_yaml = λ infos. ok (codes "[]");
}

abbrev plain_options : OutputOptions
plain_options = record { indent = false; color = false; time_zone = [] }

digits : (n : ℕ) → All IsPlain (plain_fmt.decimal n)
digits n = (ground arith, tt)

abbrev text_of : Result ZoneError (List ℕ) → List ℕ
text_of (ok text) = text
text_of (err e) = []

-- The summary of the leaf and the root.
abbrev both_text : List ℕ
both_text = text_of (convert_certs_to_summary summary lib plain_fmt both plain_options (seconds 9))

summarised :
    convert_certs_to_summary summary lib plain_fmt both plain_options (seconds 9) ≡ ok both_text
unfolding convert_certs_to_summary time_zone
summarised = refl

convert_certs_to_summary-IsPlain_example : All IsPlain both_text
convert_certs_to_summary-IsPlain_example =
    convert_certs_to_summary-IsPlain summary lib plain_fmt digits both false [] (seconds 9)
      both_text summarised

abbrev x509_inspect : X509Flow.InspectLib (Unit {0})
x509_inspect = record {
  pem = record pem { read_file = λ name. ok (1 ∷ 2 ∷ []) };
  x509 = lib;
  fmt = fmt;
  summary = summary;
  split_commas = λ s. s ∷ [];
  trim_space = λ s. s;
  draw = λ trees. [];
  highlight = λ lexer text. ok text;
  now = seconds 9;
}

abbrev x509_inspector : X509Flow.X509Inspector
x509_inspector = record {
  filename = "leaf.pem";
  bundle = "roots.pem";
  is_svid = true;
  output_format = "json";
  shortest_path = false;
  tree_fields = "";
  output_options = plain_options;
}

inspect_correct_example :
    IsSafe (X509Flow.inspect x509_inspect x509_inspector).1
    × ((out : List ℕ)
        → true ≡ true
        → (X509Flow.inspect x509_inspect x509_inspector).1 ≡ ok out
        → (out ≡ []) × IsSvidFile x509_inspect "leaf.pem")
    × ((other : String)
        → X509Flow.is_chain_or_tree "json" ≡ false
        → (X509Flow.inspect x509_inspect (record x509_inspector { bundle = other })).1
          ≡ (X509Flow.inspect x509_inspect x509_inspector).1)
inspect_correct_example = inspect_correct x509_inspect pem-IsShrinking x509_inspector

abbrev jwt_output : JwtOutput.OutputLib (Unit {0}) (Unit {0})
jwt_output = record {
  style = style;
  claims_map = λ tok. ok tt;
  marshal_indent = λ m. ok (codes "{}");
  marshal = λ m. ok (codes "{}");
  marshal_yaml = λ m. ok (codes "{}");
  load_location = λ name. ok tt;
  local = tt;
  time_in = λ zone t. codes "2026";
  duration = λ d. codes "1 hour";
  item_list = λ items. [];
  reason_text = λ r. codes "reason";
}

abbrev jwt_inspect : JwtFlow.InspectLib (Unit {0}) (Unit {0})
jwt_inspect = record {
  jose = jose;
  output = jwt_output;
  read_file = λ name. ok "token";
  parse_signed = λ text. ok parsed_token;
  highlight = λ lexer text. ok text;
  now = seconds 9;
}

abbrev jwt_inspector : JwtFlow.JwtInspector
jwt_inspector = record {
  filename = "token.jwt";
  is_svid = true;
  output_format = "other";
  output_options = record { header = false; indent = false; color = false; time_zone = [] };
}

inspect_svid_iff_example :
    (JwtFlow.inspect jwt_inspect jwt_inspector ≡ ok [])
    ↔ ((◌≡◌ {A = List ℕ} [] []) × JwtFlowLaws.IsSvidFile jwt_inspect "token.jwt")
inspect_svid_iff_example = inspect_svid_iff jwt_inspect jwt_inspector [] refl
