-- ===== src/Overrides.antt =====
-- src/extensions_parameter_overrides.c: the parameters of CREATE EXTENSION that the administrator
-- sets.
pub mod Parser
pub mod Schemas
pub mod Documents
pub mod Setting
pub mod SchemaOption
pub mod Options
pub mod EndToEnd
use supautils.Prelude.{
  ℕ, zero, suc, ◌+◌, Bool, true, not, Option, none, some, List, [], ◌∷◌, ◌++◌, if◌then◌else◌, first,
  cstr, CString, str_eq,
}
use supautils.Statements.{DefElem, ExtensionStmtKind, ext_create, string_arg}
use supautils.Session.{Action, pure, null_dereference, conflicting_options, or_raise, ◌>>=◌}

-- `extension_parameter_overrides`
pub record ExtensionParameterOverrides : Type 0 where
  pub name : Option CString
  pub schema : Option CString

-- The loop that looks for the user's schema option: its position in the list, which stands for the
-- pointer. `none` is the error on a second one.
unfoldable pub find_schema : List DefElem → ℕ → Option ℕ → Option (Option ℕ)
find_schema [] i schema_option = some schema_option
find_schema (defel ∷ options) i schema_option =
    if not (str_eq defel.defname (cstr "schema"))
    then find_schema options (i + 1) schema_option
    else elim schema_option [ none ↦ find_schema options (i + 1) (some i) | some j ↦ none ]

-- `list_delete_ptr`
unfoldable pub delete_at : List DefElem → ℕ → List DefElem
delete_at [] i = []
delete_at (x ∷ xs) zero = xs
delete_at (x ∷ xs) (suc i) = x ∷ delete_at xs i

abbrev delete_option : List DefElem → Option ℕ → List DefElem
delete_option options none = options
delete_option options (some i) = delete_at options i

-- The end of the loop's body: the user's option goes, and the override comes last.
unfoldable pub apply_override : Option CString → List DefElem → Option ℕ → List DefElem
apply_override none options schema_option = options
apply_override (some schema) options schema_option =
    delete_option options schema_option
    ++ (record { defname = cstr "schema"; arg = string_arg schema } ∷ [])

module _ {Db : Type 0} where
  -- The loop's body, at an override whose extension is or is not the one of the statement.
  unfoldable pub override_one :
      ExtensionStmtKind
      → Bool
      → ExtensionParameterOverrides
      → List DefElem
      → Action Db (List DefElem)
  override_one ext_create true epo options = do
    schema_option ← or_raise (find_schema options 0 none) conflicting_options
    pure (apply_override epo.schema options schema_option)
  override_one _ _ epo options = pure options

  -- The loop over the overrides; one for another extension, or at ALTER, is passed over.
  unfoldable pub override_entries :
      ExtensionStmtKind
      → CString
      → List ExtensionParameterOverrides
      → List DefElem
      → Action Db (List DefElem)
  override_entries stmt_kind extname [] options = pure options
  override_entries stmt_kind extname (epo ∷ epos) options = do
    name ← or_raise epo.name null_dereference
    options' ← override_one stmt_kind (str_eq name extname) epo options
    override_entries stmt_kind extname epos options'

  unfoldable pub override_ext_options :
      ExtensionStmtKind
      → CString
      → List DefElem
      → ℕ
      → (ℕ → ExtensionParameterOverrides)
      → Action Db (List DefElem)
  override_ext_options stmt_kind extname options total_epos epos =
      override_entries stmt_kind extname (first total_epos epos) options
