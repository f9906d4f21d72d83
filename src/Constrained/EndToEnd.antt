-- ===== src/Constrained/EndToEnd.antt =====
-- From the text of the setting to the answer for CREATE EXTENSION.
use supautils.Prelude.{
  ◌≡◌, subst, ◌↔◌, true, Option, none, some, List, [], ◌∷◌, All, map, CString, ℕ,
}
use supautils.Json.{Reading}
use supautils.Json.Arrays.{IsBlank}
use supautils.Constrained.{ℤ, Host, constrain_extension}
use supautils.Constrained.Meaning.{Meets, constrain_extension_iff}
use supautils.Constrained.Documents.{Constraint}
use supautils.Constrained.Setting.{ConstrainedSetting, blank, constrained_extensions_assign_hook}
use supautils.Constrained.Setting.Entries.{entry_for}
use supautils.Constrained.Setting.Values.{
  constraints_of_value, constrained_extensions_assign_hook-first,
}

module _ (name : CString) (h : Host) (totalram : ℕ) where
  -- The extension's constraints in the document are satisfied by the host, if it is this extension.
  abbrev pub Allows : Constraint → Type 0
  Allows c = Meets name h totalram (entry_for c)

  All-map : (cs : List Constraint) → All (Meets name h totalram) (map entry_for cs) ↔ All Allows cs
  All-map [] = (λ k. k, λ k. k)
  All-map (c ∷ cs) = (λ k. (k.0, (All-map cs).0 k.1), λ k. (k.0, (All-map cs).1 k.1))

  module _ (read_json : CString → Reading) (atoi : CString → ℤ) (pg_size_bytes : CString → Option ℤ)
      (g : ConstrainedSetting) where
    -- With an array that has room for the value, where no entry was written behind the hundred
    -- before: when a value that is taken is assigned, an extension may then be created on a host
    -- whose memory and disk are known exactly if every extension of the document is another one, or
    -- the last of its CPU numbers, memory sizes and disk sizes are no more than the host has.
    pub constrained_by_document :
        (value : Option CString) (cs : List Constraint)
        → IsBlank blank 100 g.cexts
        → constraints_of_value atoi pg_size_bytes read_json value ≡ some cs
        → h.totalram ≡ some totalram
        → h.statvfs_ok ≡ true
        → let t = (constrained_extensions_assign_hook read_json atoi pg_size_bytes value g).1 in
          (constrain_extension name t.cexts t.total_cexts h ≡ none) ↔ All Allows cs
    constrained_by_document value cs clean e ram disk =
        let t = (constrained_extensions_assign_hook read_json atoi pg_size_bytes value g).1 in
        let read =
          (constrained_extensions_assign_hook-first read_json atoi pg_size_bytes g value cs clean
            e).1 in
        let k = constrain_extension_iff name h totalram t.cexts t.total_cexts ram disk in
        let of_document =
          subst
            (λ l.
              (constrain_extension name t.cexts t.total_cexts h ≡ none)
              ↔ All (Meets name h totalram) l)
            read k in
        let (to, from) = All-map cs in (λ n. to (of_document.0 n), λ a. of_document.1 (from a))
