-- ===== src/Style.antt =====
-- internal/style/summary.go: fields, labels and error messages, over lipgloss's rendering.
use spiffecli.Prelude.{ℕ, Bool, List, [], ◌∷◌, ◌++◌, codes, if◌then◌else◌}

-- `Render` of a name or a label, and of a value, in colour; and of an error message in bold, in colour
-- or not.
pub record StyleLib : Type 0 where
  pub color_name : List ℕ → List ℕ
  pub color_value : List ℕ → List ℕ
  pub error_style : Bool → List ℕ → List ℕ

module _ (lib : StyleLib) where
  unfoldable pub get_summary_field : Bool → List ℕ → List ℕ → List ℕ
  get_summary_field color name value =
      if color
      then lib.color_name name ++ (codes ": " ++ lib.color_value value)
      else name ++ (codes ": " ++ value)

  unfoldable pub write_summary_field : Bool → List ℕ → List ℕ → List ℕ
  write_summary_field color name value = get_summary_field color name value ++ 10 ∷ []

  unfoldable pub get_label : Bool → List ℕ → List ℕ
  get_label color label = if color then lib.color_name label else label

  unfoldable pub get_error_message : Bool → List ℕ → List ℕ
  get_error_message color message = lib.error_style color message

  unfoldable pub write_error_message : Bool → List ℕ → List ℕ
  write_error_message color message = get_error_message color message ++ 10 ∷ []
