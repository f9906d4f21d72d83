-- ===== src/Statements.antt =====
-- The parse trees of Postgres, cut down to the fields that src/supautils.c reads.
use supautils.Prelude.{ℕ, Bool, Option, List, CString}

-- `RoleSpec`. The special role types are the ones that DROP ROLE and GRANT may meet.
pub data RoleSpecType : Type 0 where
  rolespec_cstring rolespec_current_role rolespec_current_user : RoleSpecType
  rolespec_session_user rolespec_public : RoleSpecType

pub record RoleSpec : Type 0 where
  pub roletype : RoleSpecType
  pub rolename : CString

-- `DefElem.arg`: NULL, a String, a Boolean or Integer node, a list of `RoleSpec`, or another node.
pub data DefArg : Type 0 where
  no_arg : DefArg
  string_arg : CString → DefArg
  boolean_arg : Bool → DefArg
  roles_arg : List RoleSpec → DefArg
  other_arg : ℕ → DefArg

pub record DefElem : Type 0 where
  pub defname : CString
  pub arg : DefArg

-- `extension_stmt_kind`
pub data ExtensionStmtKind : Type 0 where
  ext_create ext_alter : ExtensionStmtKind

-- The object types that the hook tells apart, with the object where it reads it. DROP POLICY, DROP
-- TRIGGER and COMMENT ON POLICY have one object: the table's qualified name, then the object's.
pub data ObjectType : Type 0 where
  object_extension object_role object_other : ObjectType

pub data DropObjects : Type 0 where
  drop_extensions : List CString → DropObjects
  drop_policy : List CString → DropObjects
  drop_trigger : List CString → DropObjects
  drop_others : DropObjects

pub data CommentObject : Type 0 where
  on_policy : List CString → CommentObject
  on_extension : CommentObject
  on_other : CommentObject

-- The statements, by node tag. `alter_role_set` has no role for ALTER ROLE ALL, and the name of a
-- setting is NULL for RESET ALL. `other_stmt` is every tag that the hook does not name.
pub data Stmt : Type 0 where
  alter_role : RoleSpec → List DefElem → Stmt
  alter_role_set : Option RoleSpec → Option CString → Stmt
  create_role : CString → List DefElem → Stmt
  drop_role : List RoleSpec → Stmt
  grant_role : Bool → List CString → List RoleSpec → Stmt
  rename : ObjectType → CString → CString → Stmt
  create_extension : CString → List DefElem → Stmt
  alter_extension : CString → List DefElem → Stmt
  alter_object_schema : ObjectType → CString → Stmt
  alter_extension_contents : Stmt
  create_fdw : CString → Stmt
  create_publication : CString → Stmt
  alter_publication : Stmt
  create_policy : List CString → Stmt
  alter_policy : List CString → Stmt
  drop : DropObjects → Stmt
  comment : CommentObject → Stmt
  variable_set : Option CString → Stmt
  create_event_trig : CString → List CString → Stmt
  other_stmt : ℕ → Stmt
