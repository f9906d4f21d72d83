-- ===== src/Hook/Escalation/Cases.antt =====
-- The cases of the hook, where the statement is not permitted.
use supautils.Prelude.{◌≡◌, refl, Bool, true, false, List, CString, arith}
use supautils.Statements.{
  Stmt, alter_object_schema, drop, comment, DropObjects, ObjectType, object_extension, object_role,
  object_other, drop_extensions, drop_policy, drop_trigger, drop_others, CommentObject, on_policy,
  on_extension, on_other, RoleSpec,
}
use supautils.Session.{Session, Action, break_if, ◌>>=◌}
use supautils.Session.Reads.{Reads, reads_rules}
use supautils.Session.Stays.{Stays-Reads}
use supautils.Server.{Server}
use supautils.Config.{Config}
use supautils.Privileges.{superuser}
use supautils.Hook.RoleStmts.{drop_role_stmt, grant_role_stmt, rename_stmt}
use supautils.Hook.ExtensionStmts.{is_privileged_object, alter_object_schema_stmt}
use supautils.Hook.GrantStmts.{
  policy_granted, drop_granted, create_policy_stmt, alter_policy_stmt, drop_stmt, comment_on_policy,
  run_if_granted,
}
use supautils.Hook.PrivilegedStmts.{comment_stmt, comment_cases}
use supautils.Hook.Escalation.Guards.{
  policy_granted-Reads, drop_granted-Reads, is_privileged_object-Reads, grant_role_checks-Reads,
  rename_checks-Reads,
}
use supautils.Hook.Escalation.Permits.{
  allows, is_offered, privileged-offered, all_privileged-offered,
}
use supautils.Hook.Escalation.Quiet.{run_if_granted-quiet}
use supautils.Hook.Escalation.AsUser.{Plain, Plain-Stays, Plain-same, Plain-bind}
use supautils.Hook.Escalation.Permitted.{permitted_user}

module _ (pg : Server) (cfg : Config) where
  pub drop_role-Reads : (roles : List RoleSpec) → Reads (drop_role_stmt pg cfg roles)
  unfolding drop_role_stmt
  drop_role-Reads roles = search reads_rules depth 20

  pub grant_role-Reads :
      (b : Bool) (granted : List CString) (grantees : List RoleSpec)
      → Reads (grant_role_stmt pg cfg b granted grantees)
  unfolding grant_role_stmt
  grant_role-Reads b granted grantees = search (reads_rules, grant_role_checks-Reads) depth 20

  pub rename-Reads : (t : ObjectType) (a b : CString) → Reads (rename_stmt pg cfg t a b)
  unfolding rename_stmt
  rename-Reads t a b = search (reads_rules, rename_checks-Reads) depth 20

module _ (pg : Server) (cfg : Config) (s : Session pg.Db) where
  pub Plain-Reads : (m : Action pg.Db Unit) → Reads m → Plain s (m s).0 (m s).1
  Plain-Reads m k = Plain-Stays s m (Stays-Reads m k)

  pub break_if-Plain :
      (stmt : Stmt) → let m = break_if {Db = pg.Db} true stmt in Plain s (m s).0 (m s).1
  break_if-Plain stmt = Plain-Reads (break_if true stmt) (search reads_rules)

  -- The shape of the cases behind a grant.
  pub granted-Plain :
      (granted : Action pg.Db Bool) (stmt : Stmt)
      → Reads granted
      → allows (granted s).0 ≡ false
      → let m = superuser pg >>= λ super.
          break_if super stmt >>= λ u. granted >>= λ g. run_if_granted pg cfg g stmt in
        Plain s (m s).0 (m s).1
  granted-Plain granted stmt k h = Plain-bind s _ _ (search reads_rules) λ super.
      Plain-bind s _ _ (search reads_rules)
        λ u. Plain-same s _ _ (run_if_granted-quiet pg cfg granted stmt s k h)

  pub extension_schema-Plain :
      (object : CString)
      → is_offered pg cfg s.db object ≡ false
      → let x = alter_object_schema_stmt pg cfg object_extension object s in Plain s x.0 x.1
  unfolding alter_object_schema_stmt run_if_granted is_privileged_object
  extension_schema-Plain object h =
      granted-Plain _ _ (is_privileged_object-Reads pg cfg object_extension object)
        (privileged-offered pg cfg s object h)

  pub object_schema-Plain :
      (t : ObjectType) (object : CString)
      → permitted_user pg cfg (alter_object_schema t object) s ≡ false
      → let x = alter_object_schema_stmt pg cfg t object s in Plain s x.0 x.1
  unfolding alter_object_schema_stmt run_if_granted is_privileged_object permitted_user ◌>>=◌
  object_schema-Plain object_extension object h = extension_schema-Plain object h
  object_schema-Plain object_role object h =
      granted-Plain _ _ (is_privileged_object-Reads pg cfg object_role object) refl
  object_schema-Plain object_other object h =
      granted-Plain _ _ (is_privileged_object-Reads pg cfg object_other object) refl

  pub create_policy-Plain :
      (table : List CString)
      → allows (policy_granted pg cfg table s).0 ≡ false
      → let x = create_policy_stmt pg cfg table s in Plain s x.0 x.1
  unfolding create_policy_stmt
  create_policy-Plain table h = granted-Plain _ _ (policy_granted-Reads pg cfg table) h

  pub alter_policy-Plain :
      (table : List CString)
      → allows (policy_granted pg cfg table s).0 ≡ false
      → let x = alter_policy_stmt pg cfg table s in Plain s x.0 x.1
  unfolding alter_policy_stmt
  alter_policy-Plain table h = granted-Plain _ _ (policy_granted-Reads pg cfg table) h

  pub drop-Plain :
      (objects : DropObjects)
      → permitted_user pg cfg (drop objects) s ≡ false
      → let x = drop_stmt pg cfg objects s in Plain s x.0 x.1
  unfolding drop_stmt permitted_user drop_granted
  drop-Plain (drop_extensions names) h =
      granted-Plain _ _ (drop_granted-Reads pg cfg (drop_extensions names))
        (all_privileged-offered pg cfg s names h)
  drop-Plain (drop_policy object) h =
      granted-Plain _ _ (drop_granted-Reads pg cfg (drop_policy object)) h
  drop-Plain (drop_trigger object) h =
      granted-Plain _ _ (drop_granted-Reads pg cfg (drop_trigger object)) h
  drop-Plain drop_others h = granted-Plain _ _ (drop_granted-Reads pg cfg drop_others) h

  pub comment_cases-quiet :
      (object : CommentObject)
      → permitted_user pg cfg (comment object) s ≡ false
      → (comment_cases pg cfg object (comment object) s).1 ≡ s
  unfolding permitted_user comment_cases comment_on_policy ◌>>=◌
  comment_cases-quiet (on_policy object) h =
      run_if_granted-quiet pg cfg _ _ s (policy_granted-Reads pg cfg _) h
  comment_cases-quiet on_extension h = ground arith
  comment_cases-quiet on_other h = refl

  pub comment-Plain :
      (object : CommentObject)
      → permitted_user pg cfg (comment object) s ≡ false
      → let x = comment_stmt pg cfg object s in Plain s x.0 x.1
  unfolding comment_stmt
  comment-Plain object h = Plain-bind s _ _ (search reads_rules) λ active.
      Plain-bind s _ _ (search reads_rules) λ u. Plain-bind s _ _ (search reads_rules) λ super.
        Plain-bind s _ _ (search reads_rules) λ v. Plain-same s _ _ (comment_cases-quiet object h)
