-- ===== src/Tests/Hooks.antt =====
-- The fmgr hook and the check hooks of the placeholders, on concrete values.
use supautils.Prelude.{refl, ◌≡◌, ◌↔◌, is_nil, none, some, true, false, [], Any, CString, cstr}
use supautils.EventTriggers.{FmgrInfo}
use supautils.FmgrHook.{fhet_start, supautils_fmgr_hook}
use supautils.FmgrHook.Decision.{EventTrigger, called, supautils_fmgr_hook-start}
use supautils.Placeholders.{
  allowed, placeholders_check_hook, restrict_placeholders_check_hook, strsep_from,
}
use supautils.Placeholders.Meaning.{
  Contains, IsPlaceholder, is_allowed, restrict_placeholders_check_hook_iff,
  placeholders_check_hook_iff,
}
use supautils.Tests.Demo.{demo, demo_config, split_commas, user}

abbrev on_ddl : FmgrInfo
on_ddl = record {
  fn_addr = 7;
  fn_oid = 50;
  fn_nargs = 0;
  fn_strict = false;
  fn_retset = false;
  fn_stats = 2;
  fn_extra = none;
  fn_mcxt = 1;
  fn_expr = none;
}

on_ddl-EventTrigger :
    EventTrigger demo demo_config 8 1 (user 10) on_ddl 30 false (cstr "user") (cstr "user")
on_ddl-EventTrigger = record {
  returns_event_trigger = refl;
  attributes = refl;
  role_named = refl;
  owner_named = refl;
}

-- The superuser 10 does not run the trigger of the user 30.
supautils_fmgr_hook-start_example :
    let (r, t) = supautils_fmgr_hook demo demo_config 8 1 none fhet_start on_ddl (user 10) in
    (t ≡ user 10)
    × (called r
        ≡ some (record {
          fn_addr = 8;
          fn_oid = 89;
          fn_nargs = 0;
          fn_strict = false;
          fn_retset = false;
          fn_stats = 0;
          fn_extra = none;
          fn_mcxt = 1;
          fn_expr = none;
        }))
supautils_fmgr_hook-start_example =
    supautils_fmgr_hook-start demo demo_config 8 1 (user 10) on_ddl 30 false (cstr "user")
      (cstr "user") on_ddl-EventTrigger

abbrev same : CString → CString
same s = s

restrict_placeholders_check_hook_iff_example :
    let r = restrict_placeholders_check_hook same (some (cstr "xp,on")) (some (cstr "icon")) in
    (is_allowed r ≡ false) ↔ (
      (is_nil (cstr "xp,on") ≡ false)
      × Any (Contains (cstr "icon")) (strsep_from [] (cstr "xp,on")))
restrict_placeholders_check_hook_iff_example =
    restrict_placeholders_check_hook_iff same (cstr "xp,on") (cstr "icon")

placeholders_check_hook_iff_example :
    (placeholders_check_hook split_commas (some (cstr "a.b,c")) ≡ allowed)
    ↔ ((true ≡ true) × Any IsPlaceholder (split_commas (cstr "a.b,c")).1)
placeholders_check_hook_iff_example = placeholders_check_hook_iff split_commas (cstr "a.b,c")
