-- ===== src/Constrained/Setting.antt =====
-- src/supautils.c: the hooks of the setting `supautils.constrained_extensions`. The check hook
-- parses into an array of its own, the assign hook into the array in use.
pub mod Entries
pub mod Values
use supautils.Prelude.{ℕ, ltb, ◌||◌, Bool, true, false, Option, none, some, CString, if◌then◌else◌}
use supautils.Json.{Reading}
use supautils.Constrained.{ℤ, pos, ConstrainedExtension}
use supautils.Constrained.Parser.{
  max_constrained_extensions, ErrorMsg, ParseState, parse_constrained_extensions,
}

-- The static variables `cexts` and `total_cexts`; `overrun` says that a parser wrote past an array.
pub record ConstrainedSetting : Type 0 where
  pub cexts : ℕ → ConstrainedExtension
  pub total_cexts : ℕ
  pub overrun : Bool

-- What a hook reports: the parser's message, or the error that `pg_size_bytes` raised.
pub data SettingError : Type 0 where
  invalid_value : ErrorMsg → SettingError
  invalid_size : SettingError

-- An entry of `{0}` and of `memset(.., 0, ..)`.
abbrev pub blank : ConstrainedExtension
blank = record { name = none; cpu = pos 0; mem = 0; disk = 0 }

abbrev invalid : Option ErrorMsg → Option SettingError
invalid none = none
invalid (some msg) = some (invalid_value msg)

unfoldable pub parse_error : ParseState → Option SettingError
parse_error parse = if parse.raised then some invalid_size else invalid parse.error_msg

-- `memset` over the array, which has `max_constrained_extensions` entries.
unfoldable pub clear_constrained_extensions : ConstrainedSetting → ConstrainedSetting
clear_constrained_extensions g = record g {
  cexts = λ i. if ltb i max_constrained_extensions then blank else g.cexts i;
  total_cexts = 0;
}

-- `total_cexts` is set where there is no error.
unfoldable pub finish_assign :
    ParseState → ConstrainedSetting → Option SettingError × ConstrainedSetting
unfolding parse_error
finish_assign parse g =
    let written = record g { cexts = parse.cexts; overrun = parse.overrun || g.overrun } in
    elim (parse_error parse) [
      | some e ↦ (some e, written)
      | none ↦ (none, record written { total_cexts = parse.total_cexts })
    ]

module _ (read_json : CString → Reading) (atoi : CString → ℤ)
    (pg_size_bytes : CString → Option ℤ) where
  unfoldable pub constrained_extensions_check_hook :
      Option CString → ConstrainedSetting → Option SettingError × ConstrainedSetting
  unfolding parse_error
  constrained_extensions_check_hook none g = (none, g)
  constrained_extensions_check_hook (some newval) g =
      let parse = parse_constrained_extensions read_json atoi pg_size_bytes newval (λ i. blank) in
      (parse_error parse, record g { overrun = parse.overrun || g.overrun })

  unfoldable pub constrained_extensions_assign_hook :
      Option CString → ConstrainedSetting → Option SettingError × ConstrainedSetting
  unfolding clear_constrained_extensions finish_assign
  constrained_extensions_assign_hook none g = (none, clear_constrained_extensions g)
  constrained_extensions_assign_hook (some newval) g =
      let cleared = clear_constrained_extensions g in
      finish_assign (parse_constrained_extensions read_json atoi pg_size_bytes newval cleared.cexts)
        cleared
