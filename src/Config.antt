-- ===== src/Config.antt =====
-- The settings of src/supautils.c, as the hooks read them. A string setting is `none` where its
-- `char *` is NULL. They are fixed while one statement is handled.
use supautils.Prelude.{ℕ, Bool, Option, CString}
use supautils.Grants.{PolicyGrants}
use supautils.Constrained.{ConstrainedExtension, Host}
use supautils.Overrides.{ExtensionParameterOverrides}

-- `restrict_extension_versions_mode`
pub data RestrictMode : Type 0 where
  off warn error : RestrictMode

pub record Config : Type 0 where
  pub reserved_roles : Option CString
  pub reserved_memberships : Option CString
  pub privileged_extensions : Option CString
  pub supautils_superuser : Option CString
  pub extension_custom_scripts_path : Option CString
  pub privileged_role : Option CString
  pub privileged_role_allowed_configs : Option CString
  pub restrict_extension_versions : RestrictMode
  pub log_skipped_evtrigs : Bool
  pub cexts : ℕ → ConstrainedExtension
  pub total_cexts : ℕ
  pub epos : ℕ → ExtensionParameterOverrides
  pub total_epos : ℕ
  pub pgs : ℕ → PolicyGrants
  pub total_pgs : ℕ
  pub dtgs : ℕ → PolicyGrants
  pub total_dtgs : ℕ
  pub host : Host
