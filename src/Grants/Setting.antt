-- ===== src/Grants/Setting.antt =====
-- src/supautils.c: the check hook of `supautils.policy_grants`, which replaces the grants in use.
-- `drop_trigger_grants_check_hook` is the same code on the other array.
pub mod Reloads
pub mod Leak
use supautils.Prelude.{ℕ, ltb, ◌||◌, Bool, false, Option, none, some, CString, if◌then◌else◌}
use supautils.Json.{Reading}
use supautils.Grants.{PolicyGrants}
use supautils.Grants.Parser.{ErrorMsg, ParseState, parse_policy_grants}

-- The static variables `pgs` and `total_pgs`; `overrun` says that a parser wrote past an array.
pub record GrantsSetting : Type 0 where
  pub pgs : ℕ → PolicyGrants
  pub total_pgs : ℕ
  pub overrun : Bool

-- `{0}`
abbrev pub zeroed : GrantsSetting
zeroed = record {
  pgs = λ i. record { role_name = none; table_names = λ j. none; total_tables = 0 };
  total_pgs = 0;
  overrun = false;
}

-- The loops at the beginning. The freed strings are not read before they are set again.
unfoldable pub clear_tables : ℕ → (ℕ → PolicyGrants) → ℕ → PolicyGrants
clear_tables total_pgs pgs i =
    if ltb i total_pgs then record (pgs i) { total_tables = 0 } else pgs i

unfoldable pub clear_grants : GrantsSetting → GrantsSetting
unfolding clear_tables
clear_grants g = record g { pgs = clear_tables g.total_pgs g.pgs; total_pgs = 0 }

-- What the error stops: `total_pgs` is set where there is none.
unfoldable pub finish_check : ParseState → GrantsSetting → Option ErrorMsg × GrantsSetting
finish_check parse g =
    let written = record g { pgs = parse.pgs; overrun = parse.overrun || g.overrun } in
    elim parse.error_msg [
      | some msg ↦ (some msg, written)
      | none ↦ (none, record written { total_pgs = parse.total_pgs })
    ]

module _ (read_json : CString → Reading) where
  unfoldable pub policy_grants_check_hook :
      Option CString → GrantsSetting → Option ErrorMsg × GrantsSetting
  unfolding clear_grants finish_check
  policy_grants_check_hook none g = (none, clear_grants g)
  policy_grants_check_hook (some val) g =
      let cleared = clear_grants g in
      finish_check (parse_policy_grants read_json val cleared.pgs) cleared
