-- ===== src/Hook/Escalation/Superusers.antt =====
-- The cases of the hook that stop at a superuser and keep the state.
use supautils.Prelude.{◌≡◌, true, List, CString, arith}
use supautils.Statements.{ObjectType, DropObjects, CommentObject, DefElem}
use supautils.Session.{Session, ◌>>=◌}
use supautils.Server.{Server}
use supautils.Config.{Config}
use supautils.Hook.ExtensionStmts.{alter_extension_stmt, alter_object_schema_stmt}
use supautils.Hook.GrantStmts.{create_policy_stmt, alter_policy_stmt, drop_stmt}
use supautils.Hook.PrivilegedStmts.{
  comment_stmt, create_fdw_stmt, create_publication_stmt, alter_publication_stmt, privileged_only,
}

module _ (pg : Server) (cfg : Config) (s : Session pg.Db)
    (q : pg.superuser_arg s.db s.user_id ≡ true) where
  pub comment-super : (object : CommentObject) → (comment_stmt pg cfg object s).1 ≡ s
  unfolding comment_stmt ◌>>=◌
  comment-super object = ground arith

  pub alter_extension-super :
      (name : CString) (options : List DefElem) → (alter_extension_stmt pg cfg name options s).1 ≡ s
  unfolding alter_extension_stmt ◌>>=◌
  alter_extension-super name options = ground arith

  pub object_schema-super :
      (t : ObjectType) (name : CString) → (alter_object_schema_stmt pg cfg t name s).1 ≡ s
  unfolding alter_object_schema_stmt ◌>>=◌
  object_schema-super t name = ground arith

  pub policy-super :
      (table : List CString)
      → ((create_policy_stmt pg cfg table s).1 ≡ s) × ((alter_policy_stmt pg cfg table s).1 ≡ s)
  unfolding create_policy_stmt alter_policy_stmt ◌>>=◌
  policy-super table = (ground arith, ground arith)

  pub drop-super : (objects : DropObjects) → (drop_stmt pg cfg objects s).1 ≡ s
  unfolding drop_stmt ◌>>=◌
  drop-super objects = ground arith

  pub privileged-super :
      (name : CString)
      → ((create_fdw_stmt pg cfg name s).1 ≡ s)
        × ((create_publication_stmt pg cfg name s).1 ≡ s)
        × ((alter_publication_stmt pg cfg s).1 ≡ s)
  unfolding create_fdw_stmt create_publication_stmt alter_publication_stmt privileged_only ◌>>=◌
  privileged-super name = (ground arith, ground arith, ground arith)
