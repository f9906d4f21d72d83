-- ===== src/Constrained/Setting/Entries.antt =====
-- The entry that an extension of a document becomes in the array.
use supautils.Prelude.{
  ◌≡◌, refl, ap, ap₂, ◌∙◌, ℕ, ◌+◌, ◌-◌, ◌%◌, ◌^◌, false, Option, none, some, List, [], ◌∷◌, map,
  CString, arith, ◌==◌,
}
use supautils.Json.Objects.{apply_all}
use supautils.Json.Arrays.{Fills}
use supautils.Constrained.{ℤ, pos, negsuc, ConstrainedExtension}
use supautils.Constrained.Parser.{ParseState, set_entry, set_name}
use supautils.Constrained.Limits.{Limit, limit_cpu, limit_mem, limit_disk, set_limit, apply_limit}
use supautils.Constrained.Setting.{blank}
use supautils.Constrained.Documents.{Constraint, apply_constraint, open_entry}

-- As an unsigned 64-bit number.
abbrev unsigned : ℤ → ℕ
unsigned (pos n) = n % 2 ^ 64
unsigned (negsuc n) = 2 ^ 64 - 1 - n % 2 ^ 64

-- The last one of each kind, with what counts where there is none.
abbrev cpu_of : List Limit → ℤ → ℤ
cpu_of [] cpu = cpu
cpu_of (limit_cpu n ∷ ls) cpu = cpu_of ls n
cpu_of (limit_mem n ∷ ls) cpu = cpu_of ls cpu
cpu_of (limit_disk n ∷ ls) cpu = cpu_of ls cpu

abbrev mem_of : List Limit → ℕ → ℕ
mem_of [] mem = mem
mem_of (limit_cpu n ∷ ls) mem = mem_of ls mem
mem_of (limit_mem n ∷ ls) mem = mem_of ls (unsigned n)
mem_of (limit_disk n ∷ ls) mem = mem_of ls mem

abbrev disk_of : List Limit → ℕ → ℕ
disk_of [] disk = disk
disk_of (limit_cpu n ∷ ls) disk = disk_of ls disk
disk_of (limit_mem n ∷ ls) disk = disk_of ls disk
disk_of (limit_disk n ∷ ls) disk = disk_of ls (unsigned n)

abbrev limited : Option CString → ℤ → (mem disk : ℕ) → List Limit → ConstrainedExtension
limited name cpu mem disk ls = record {
  name = name;
  cpu = cpu_of ls cpu;
  mem = mem_of ls mem;
  disk = disk_of ls disk;
}

-- The extension's name and the last of its limits of each kind, 0 where there is none.
abbrev pub entry_for : Constraint → ConstrainedExtension
entry_for (name, ls) = limited (some name) (pos 0) 0 0 ls

-- The entry of an extension with its constraints, the later ones over the earlier ones.
abbrev pub entry_of : Constraint → ConstrainedExtension → ConstrainedExtension
entry_of (name, ls) x = apply_all set_limit ls (set_name name x)

set_entry-here :
    (f : ConstrainedExtension → ConstrainedExtension) (p : ParseState) (n : ℕ)
    → p.total_cexts ≡ n
    → (set_entry f p).cexts n ≡ f (p.cexts n)
unfolding set_entry
set_entry-here f p n h = ground arith

set_entry-other :
    (f : ConstrainedExtension → ConstrainedExtension) (p : ParseState) (i : ℕ)
    → (p.total_cexts == i) ≡ false
    → (set_entry f p).cexts i ≡ p.cexts i
unfolding set_entry
set_entry-other f p i h = ground arith

set_entry-total :
    (f : ConstrainedExtension → ConstrainedExtension) (p : ParseState)
    → (set_entry f p).total_cexts ≡ p.total_cexts
unfolding set_entry
set_entry-total f p = refl

limits-total :
    (ls : List Limit) (p : ParseState) → (apply_all apply_limit ls p).total_cexts ≡ p.total_cexts
limits-total [] p = refl
limits-total (l ∷ ls) p = limits-total ls (apply_limit l p) ∙ set_entry-total (set_limit l) p

limits-here :
    (ls : List Limit) (p : ParseState) (n : ℕ)
    → p.total_cexts ≡ n
    → (apply_all apply_limit ls p).cexts n ≡ apply_all set_limit ls (p.cexts n)
limits-here [] p n h = refl
limits-here (l ∷ ls) p n h =
    limits-here ls (apply_limit l p) n (set_entry-total (set_limit l) p ∙ h)
    ∙ ap (apply_all set_limit ls) (set_entry-here (set_limit l) p n h)

limits-other :
    (ls : List Limit) (p : ParseState) (i : ℕ)
    → (p.total_cexts == i) ≡ false
    → (apply_all apply_limit ls p).cexts i ≡ p.cexts i
limits-other [] p i h = refl
limits-other (l ∷ ls) p i h =
    limits-other ls (apply_limit l p) i (ap (λ n. n == i) (set_entry-total (set_limit l) p) ∙ h)
    ∙ set_entry-other (set_limit l) p i h

pub constraint-Fills :
    Fills (λ (p : ParseState). p.cexts) (λ p. p.total_cexts) apply_constraint entry_of
constraint-Fills = record {
  counted = λ c p.
      ap (λ n. n + 1) (limits-total c.1 (open_entry c.0 p) ∙ set_entry-total (set_name c.0) p);
  here = λ c p.
      limits-here c.1 (open_entry c.0 p) p.total_cexts (set_entry-total (set_name c.0) p)
      ∙ ap (apply_all set_limit c.1) (set_entry-here (set_name c.0) p p.total_cexts refl);
  other = λ c p i h.
      limits-other c.1 (open_entry c.0 p) i
        (ap (λ n. n == i) (set_entry-total (set_name c.0) p) ∙ h)
      ∙ set_entry-other (set_name c.0) p i h;
}

-- Nothing was reported, and nothing raised.
pub record Quiet (p : ParseState) : Type 0 where
  pub no_msg : p.error_msg ≡ none
  pub not_raised : p.raised ≡ false

set_entry-Quiet :
    (f : ConstrainedExtension → ConstrainedExtension) (p : ParseState)
    → Quiet p
    → Quiet (set_entry f p)
unfolding set_entry
set_entry-Quiet f p h = record { no_msg = h.no_msg; not_raised = h.not_raised }

limits-Quiet : (ls : List Limit) (p : ParseState) → Quiet p → Quiet (apply_all apply_limit ls p)
limits-Quiet [] p h = h
limits-Quiet (l ∷ ls) p h =
    let k = set_entry-Quiet (set_limit l) p h in
    limits-Quiet ls (apply_limit l p) (record { no_msg = k.no_msg; not_raised = k.not_raised })

pub constraints-Quiet :
    (cs : List Constraint) (p : ParseState) → Quiet p → Quiet (apply_all apply_constraint cs p)
constraints-Quiet [] p h = h
constraints-Quiet (c ∷ cs) p h =
    let n = set_entry-Quiet (set_name c.0) p h in
    let k =
      limits-Quiet c.1 (open_entry c.0 p)
        (record { no_msg = n.no_msg; not_raised = n.not_raised }) in
    constraints-Quiet cs (apply_constraint c p)
      (record { no_msg = k.no_msg; not_raised = k.not_raised })

set_limits-limited :
    (ls : List Limit) (name : Option CString) (cpu : ℤ) (mem disk : ℕ)
    → apply_all set_limit ls (record { name = name; cpu = cpu; mem = mem; disk = disk })
      ≡ limited name cpu mem disk ls
set_limits-limited [] name cpu mem disk = refl
set_limits-limited (limit_cpu n ∷ ls) name cpu mem disk = set_limits-limited ls name n mem disk
set_limits-limited (limit_mem (pos n) ∷ ls) name cpu mem disk =
    set_limits-limited ls name cpu (n % 2 ^ 64) disk
set_limits-limited (limit_mem (negsuc n) ∷ ls) name cpu mem disk =
    set_limits-limited ls name cpu (2 ^ 64 - 1 - n % 2 ^ 64) disk
set_limits-limited (limit_disk (pos n) ∷ ls) name cpu mem disk =
    set_limits-limited ls name cpu mem (n % 2 ^ 64)
set_limits-limited (limit_disk (negsuc n) ∷ ls) name cpu mem disk =
    set_limits-limited ls name cpu mem (2 ^ 64 - 1 - n % 2 ^ 64)

entry_of-entry_for : (c : Constraint) → entry_of c blank ≡ entry_for c
entry_of-entry_for (name, ls) = set_limits-limited ls (some name) (pos 0) 0 0

pub entries_for : (cs : List Constraint) → map (λ c. entry_of c blank) cs ≡ map entry_for cs
entries_for [] = refl
entries_for (c ∷ cs) = ap₂ (λ e es. e ∷ es) (entry_of-entry_for c) (entries_for cs)
