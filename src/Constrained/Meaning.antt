-- ===== src/Constrained/Meaning.antt =====
-- When the constraints let an extension be created.
use supautils.Prelude.{
  ◌≡◌, refl, ◌↔◌, ◌≤◌, ◌*◌, ◌%◌, ◌^◌, ℕ, true, false, none, some, List, [], ◌∷◌, All, first,
  CString, str_eq, str_eq_iff, arith, ◌≢◌, inl, inr, Option-cases, Bool-cases, str_eq_refl, ◌∙◌,
  sym, ap,
}
use supautils.Constrained.{
  ℤ, pos, negsuc, ConstrainedExtension, Host, cpu_exceeds, free_disk, constraint_error,
  constrain_entries, constrain_extension,
}

-- The CPUs wanted, where 0 and a negative number want none.
abbrev wanted : ℤ → ℕ
wanted (pos n) = n
wanted (negsuc n) = 0

-- An entry for the extension is satisfied by the host's CPUs, its memory and its free disk space.
pub record Satisfied (h : Host) (totalram : ℕ) (x : ConstrainedExtension) : Type 0 where
  pub cpus : wanted x.cpu ≤ h.nprocs
  pub memory : x.mem ≤ totalram
  pub space : x.disk ≤ (h.f_bfree * h.f_bsize) % 2 ^ 64

module _ (h : Host) (totalram : ℕ) (x : ConstrainedExtension) where
  cpu_fits : (c : ℤ) → (cpu_exceeds c h.nprocs ≡ false) ↔ (wanted c ≤ h.nprocs)
  unfolding cpu_exceeds
  cpu_fits (pos n) = ground arith
  cpu_fits (negsuc n) = ground arith

  no_error→Satisfied : constraint_error x totalram h ≡ none → Satisfied h totalram x
  unfolding constraint_error free_disk
  no_error→Satisfied e = record {
    cpus = (cpu_fits x.cpu).0 (ground arith);
    memory = ground arith;
    space = ground arith;
  }

  Satisfied→no_error : Satisfied h totalram x → constraint_error x totalram h ≡ none
  unfolding constraint_error free_disk
  Satisfied→no_error k = ground (arith, (cpu_fits x.cpu).1 k.cpus)

-- An entry of the settings does not stand in the way of this extension.
pub data Meets (name : CString) (h : Host) (totalram : ℕ) (x : ConstrainedExtension) : Type 0 where
  other : (n : CString) → x.name ≡ some n → name ≢ n → Meets name h totalram x
  satisfied : x.name ≡ some name → Satisfied h totalram x → Meets name h totalram x

module _ (name : CString) (h : Host) (totalram : ℕ) where
  unnamed :
      (x : ConstrainedExtension) (l : List ConstrainedExtension)
      → x.name ≡ none
      → ¬ (constrain_entries name totalram h (x ∷ l) ≡ none)
  unfolding constrain_entries
  unnamed x l e k = ground arith

  passed_over :
      (x : ConstrainedExtension) (l : List ConstrainedExtension) (n : CString)
      → x.name ≡ some n
      → str_eq name n ≡ false
      → constrain_entries name totalram h (x ∷ l) ≡ constrain_entries name totalram h l
  unfolding constrain_entries
  passed_over x l n e k = ground arith

  checked :
      (x : ConstrainedExtension) (l : List ConstrainedExtension) (n : CString)
      → x.name ≡ some n
      → str_eq name n ≡ true
      → (constrain_entries name totalram h (x ∷ l) ≡ none)
        ↔ ((constraint_error x totalram h ≡ none) × (constrain_entries name totalram h l ≡ none))
  unfolding constrain_entries
  checked x l n e k = (λ q. (ground arith, ground arith), λ q. ground (arith, q.0, q.1))

  entries→All :
      (l : List ConstrainedExtension)
      → constrain_entries name totalram h l ≡ none
      → All (Meets name h totalram) l
  entries→All [] k = tt
  entries→All (x ∷ l) k = elim (Option-cases x.name) [
    | inl e ↦ absurd (unnamed x l e k)
    | inr (n, e) ↦ elim (Bool-cases (str_eq name n)) [
      | inl q ↦
          let c = (checked x l n e q).0 k in
          let same = (str_eq_iff name n).0 q in
          (
            satisfied (e ∙ ap some (sym same)) (no_error→Satisfied h totalram x c.0),
            entries→All l c.1,
          )
      | inr q ↦ (
        other n e (λ same. cc (q, (str_eq_iff name n).1 same)),
        entries→All l (sym (passed_over x l n e q) ∙ k),
      )
    ]
  ]

  no_entries : constrain_entries name totalram h [] ≡ none
  unfolding constrain_entries
  no_entries = refl

  differs : (n : CString) → name ≢ n → str_eq name n ≡ false
  differs n ne = elim (Bool-cases (str_eq name n)) [
    | inl q ↦ absurd (ne ((str_eq_iff name n).0 q))
    | inr q ↦ q
  ]

  All→entries :
      (l : List ConstrainedExtension)
      → All (Meets name h totalram) l
      → constrain_entries name totalram h l ≡ none
  All→entries [] k = no_entries
  All→entries (x ∷ l) (other n e ne, k) = passed_over x l n e (differs n ne) ∙ All→entries l k
  All→entries (x ∷ l) (satisfied e m, k) =
      (checked x l name e (str_eq_refl name)).1 (Satisfied→no_error h totalram x m, All→entries l k)

  -- Where the memory and the disk of the host are known, the extension may be created exactly if
  -- every entry in use has a name, and each one with the extension's name asks for no more CPUs,
  -- memory and free disk space than the host has; 0, and a negative number of CPUs, ask for none.
  pub constrain_extension_iff :
      (cexts : ℕ → ConstrainedExtension) (total_cexts : ℕ)
      → h.totalram ≡ some totalram
      → h.statvfs_ok ≡ true
      → (constrain_extension name cexts total_cexts h ≡ none)
        ↔ All (Meets name h totalram) (first total_cexts cexts)
  unfolding constrain_extension
  constrain_extension_iff cexts total_cexts m d =
      let l = first total_cexts cexts in
      let same : constrain_extension name cexts total_cexts h
          ≡ constrain_entries name totalram h l =
        ground arith in
      (λ k. entries→All l (sym same ∙ k), λ k. same ∙ All→entries l k)
