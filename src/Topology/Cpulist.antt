-- ===== src/Topology/Cpulist.antt =====
-- source/lunar_topology.h: `parse_cpulist` and `read_cpulist_file`.
pub mod Print
use lunar_sched.Base.{
  ℕ, zero, suc, ◌-◌, Bool, true, false, Option, none, some, List, [], ◌∷◌, ◌++◌, ltb, leb,
  if◌then◌else◌, u32, add64, ◌>>=◌,
}
use lunar_sched.Text.{Bytes, length, stoul, get_lines, cut_at}
use lunar_sched.Topology.Sysfs.{Host, FsPath, read_first_line}

-- The loop `for (c = lo; c <= hi; ++c)` with what it appends to the vector, which has room for so many
-- elements; a `push_back` beyond that throws, and `none` is the `nullopt` of the handler.
unfoldable pub push_range : ℕ → ℕ → ℕ → Option (List ℕ)
push_range zero c hi = if leb c hi then none else some []
push_range (suc room) c hi = elim (leb c hi) [
  | false ↦ some []
  | true ↦ do cpus ← push_range room (add64 c 1) hi; some (u32 c ∷ cpus)
]

unfoldable pub push_one : ℕ → ℕ → Option (List ℕ)
push_one zero c = none
push_one (suc room) c = some (u32 c ∷ [])

abbrev pub parse_range : ℕ → Bytes → Bytes → Option (List ℕ)
parse_range room front rest = do
  lo ← stoul front
  hi ← stoul rest
  if ltb hi lo then none else push_range room lo hi

unfoldable pub parse_token : ℕ → Bytes → Option (List ℕ)
parse_token room [] = some []
parse_token room (c ∷ s) = elim (cut_at b'-' (c ∷ s)) [
  | none ↦ do n ← stoul (c ∷ s); push_one room n
  | some (front, rest) ↦ parse_range room front rest
]

unfoldable pub parse_tokens : ℕ → List Bytes → Option (List ℕ)
parse_tokens room [] = some []
parse_tokens room (tok ∷ toks) = do
  cpus ← parse_token room tok
  more ← parse_tokens (room - length cpus) toks
  some (cpus ++ more)

unfoldable pub parse_cpulist : ℕ → Bytes → Option (List ℕ)
parse_cpulist max_size list = parse_tokens max_size (get_lines b',' list)

unfoldable pub read_cpulist_file : Host → FsPath → Option (List ℕ)
read_cpulist_file h p = do line ← read_first_line h p; parse_cpulist h.max_size line
