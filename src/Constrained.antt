-- ===== src/Constrained.antt =====
-- src/constrained_extensions.c: the resources that an extension needs to be created. The host's
-- figures are what the C library reports; the build is for Linux.
pub mod Meaning
pub mod Parser
pub mod Limits
pub mod LimitRuns
pub mod Documents
pub mod Setting
pub mod EndToEnd
use supautils.Prelude.{
  ℕ, ◌*◌, ◌%◌, ◌^◌, Bool, false, not, ◌&&◌, Option, none, some, List, [], ◌∷◌, ltb, ◌==◌,
  if◌then◌else◌, first, CString, str_eq,
}
use supautils.Session.{
  Error, null_dereference, sysinfo_failed, statvfs_failed, not_enough_cpus, not_enough_memory,
  not_enough_disk,
}

-- A C `int`; `negsuc n` is -(n + 1).
pub data ℤ : Type 0 where
  pos : ℕ → ℤ
  negsuc : ℕ → ℤ

-- `constrained_extension`; `mem` and `disk` are `uint64`.
pub record ConstrainedExtension : Type 0 where
  pub name : Option CString
  pub cpu : ℤ
  pub mem : ℕ
  pub disk : ℕ

-- What `get_nprocs`, `sysinfo` and `statvfs` report; `none` where the call fails.
pub record Host : Type 0 where
  pub nprocs : ℕ
  pub totalram : Option ℕ
  pub f_bfree : ℕ
  pub f_bsize : ℕ
  pub statvfs_ok : Bool

-- `cpu != 0 && cpu > nprocs`
unfoldable pub cpu_exceeds : ℤ → ℕ → Bool
cpu_exceeds (pos n) nprocs = not (n == 0) && ltb nprocs n
cpu_exceeds (negsuc n) nprocs = false

-- `(size_t)(f_bfree * f_bsize)`, a product of 64 bits
unfoldable pub free_disk : Host → ℕ
free_disk h = (h.f_bfree * h.f_bsize) % 2 ^ 64

-- The three tests on an entry whose name is the extension's, in the order of the code.
unfoldable pub constraint_error : ConstrainedExtension → ℕ → Host → Option Error
unfolding cpu_exceeds free_disk
constraint_error x totalram h =
    if cpu_exceeds x.cpu h.nprocs
    then some not_enough_cpus
    else if not (x.mem == 0) && ltb totalram x.mem
    then some not_enough_memory
    else if not (x.disk == 0) && ltb (free_disk h) x.disk
    then some not_enough_disk
    else none

or_else : Option Error → Option Error → Option Error
or_else none e = e
or_else (some e) _ = some e

-- The loop: an error stops it.
unfoldable pub constrain_entries : CString → ℕ → Host → List ConstrainedExtension → Option Error
unfolding or_else
constrain_entries name totalram h [] = none
constrain_entries name totalram h (x ∷ cexts) =
    let rest = constrain_entries name totalram h cexts in
    elim x.name [
      | none ↦ some null_dereference
      | some n ↦ if str_eq name n then or_else (constraint_error x totalram h) rest else rest
    ]

-- The error that stops the statement, if one does.
unfoldable pub constrain_extension : CString → (ℕ → ConstrainedExtension) → ℕ → Host → Option Error
constrain_extension name cexts total_cexts h = elim h.totalram [
  | none ↦ some sysinfo_failed
  | some totalram ↦
      if h.statvfs_ok
      then constrain_entries name totalram h (first total_cexts cexts)
      else some statvfs_failed
]
