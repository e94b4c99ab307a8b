-- ===== src/PluginApi/Diagnostics.antt =====
-- packages/plugin-api/src/diagnostics.ts: structured diagnostics and their order.
use appspine_packages.Base.{
  ◌≡◌, Bool, true, false, ◌||◌, Option, List, [], ◌∷◌, ◌++◌, Perm, get_or, any, Text, say, sort_by,
  sort_by-perm, any-sort_by, by_key, any-append,
}

pub data DiagnosticSeverity : Type 0 where
  error warning info : DiagnosticSeverity

pub record PluginDiagnostic : Type 0 where
  pub code : Text
  pub severity : DiagnosticSeverity
  pub message : Text
  pub plugin_id : Option Text
  pub instance_id : Option Text
  pub path : Option Text

-- The third argument of `diagnostic`.
pub record DiagnosticExtra : Type 0 where
  pub plugin_id : Option Text
  pub instance_id : Option Text
  pub path : Option Text
  pub severity : Option DiagnosticSeverity

unfoldable pub diagnostic : Text → Text → DiagnosticExtra → PluginDiagnostic
diagnostic code message extra = record {
  code = code;
  severity = get_or extra.severity error;
  message = message;
  plugin_id = extra.plugin_id;
  instance_id = extra.instance_id;
  path = extra.path;
}

abbrev pub is_error : PluginDiagnostic → Bool
is_error d = elim d.severity [ error ↦ true | _ ↦ false ]

unfoldable pub has_errors : List PluginDiagnostic → Bool
has_errors ds = any is_error ds

-- The field separator, a NUL code unit.
abbrev separator : Text
separator = 0 ∷ []

abbrev or_empty : Option Text → Text
or_empty o = get_or o []

unfoldable pub sort_key : PluginDiagnostic → Text
sort_key d = say (
    or_empty d.plugin_id
    ∷ separator
    ∷ or_empty d.instance_id
    ∷ separator
    ∷ d.code
    ∷ separator
    ∷ or_empty d.path
    ∷ separator
    ∷ d.message
    ∷ [])

unfoldable pub sort_diagnostics : List PluginDiagnostic → List PluginDiagnostic
unfolding sort_key
sort_diagnostics ds = sort_by (by_key sort_key) ds

pub has_errors-append :
    (ds es : List PluginDiagnostic) → has_errors (ds ++ es) ≡ (has_errors ds || has_errors es)
unfolding has_errors
has_errors-append ds es = any-append is_error ds es

pub sort_diagnostics-perm : (ds : List PluginDiagnostic) → Perm (sort_diagnostics ds) ds
unfolding sort_diagnostics
sort_diagnostics-perm ds = sort_by-perm (by_key sort_key) ds

pub has_errors-sort_diagnostics :
    (ds : List PluginDiagnostic) → has_errors (sort_diagnostics ds) ≡ has_errors ds
unfolding has_errors sort_diagnostics
has_errors-sort_diagnostics ds = any-sort_by is_error (by_key sort_key) ds
