-- ===== src/Overrides/Setting.antt =====
-- src/supautils.c: the hooks of the setting `supautils.extensions_parameter_overrides`. The check
-- hook parses into an array of its own, the assign hook into the array in use.
pub mod Entries
pub mod Values
use supautils.Prelude.{ℕ, ltb, ◌||◌, Bool, Option, none, some, CString, if◌then◌else◌}
use supautils.Json.{Reading}
use supautils.Overrides.{ExtensionParameterOverrides}
use supautils.Overrides.Parser.{
  ErrorMsg, ParseState, parse_extensions_parameter_overrides, max_extensions_parameter_overrides,
}

-- The static variables `epos` and `total_epos`; `overrun` says that a parser wrote past an array.
pub record OverridesSetting : Type 0 where
  pub epos : ℕ → ExtensionParameterOverrides
  pub total_epos : ℕ
  pub overrun : Bool

-- An entry of `{0}`.
abbrev pub blank : ExtensionParameterOverrides
blank = record { name = none; schema = none }

-- The strings are freed and the first `count` entries zeroed.
unfoldable pub clear_extensions_parameter_overrides_array :
    (ℕ → ExtensionParameterOverrides) → ℕ → ℕ → ExtensionParameterOverrides
clear_extensions_parameter_overrides_array target count i = if ltb i count then blank else target i

unfoldable pub clear_extensions_parameter_overrides : OverridesSetting → OverridesSetting
unfolding clear_extensions_parameter_overrides_array
clear_extensions_parameter_overrides g = record g {
  epos = clear_extensions_parameter_overrides_array g.epos max_extensions_parameter_overrides;
  total_epos = 0;
}

-- `total_epos` is set where there is no error.
unfoldable pub finish_assign : ParseState → OverridesSetting → Option ErrorMsg × OverridesSetting
finish_assign parse g =
    let written = record g { epos = parse.epos; overrun = parse.overrun || g.overrun } in
    elim parse.error_msg [
      | some msg ↦ (some msg, written)
      | none ↦ (none, record written { total_epos = parse.total_epos })
    ]

module _ (read_json : CString → Reading) where
  unfoldable pub extensions_parameter_overrides_check_hook :
      Option CString → OverridesSetting → Option ErrorMsg × OverridesSetting
  extensions_parameter_overrides_check_hook none g = (none, g)
  extensions_parameter_overrides_check_hook (some newval) g =
      let parse = parse_extensions_parameter_overrides read_json newval (λ i. blank) in
      (parse.error_msg, record g { overrun = parse.overrun || g.overrun })

  unfoldable pub extensions_parameter_overrides_assign_hook :
      Option CString → OverridesSetting → Option ErrorMsg × OverridesSetting
  unfolding clear_extensions_parameter_overrides finish_assign
  extensions_parameter_overrides_assign_hook none g = (none, clear_extensions_parameter_overrides g)
  extensions_parameter_overrides_assign_hook (some newval) g =
      let cleared = clear_extensions_parameter_overrides g in
      finish_assign (parse_extensions_parameter_overrides read_json newval cleared.epos) cleared
