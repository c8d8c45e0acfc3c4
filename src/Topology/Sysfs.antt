-- ===== src/Topology/Sysfs.antt =====
-- source/lunar_topology.h: the files of sysfs that describe a cpu and its caches.
use lunar_sched.Base.{
  ℕ, Bool, true, false, ◌&&◌, ◌||◌, Option, none, some, List, [], ◌∷◌, ◌++◌, ◌==◌, if◌then◌else◌,
  ◌>>=◌,
}
use lunar_sched.Base.Int.{ℤ, pos, negsuc}
use lunar_sched.Text.{Bytes, bytes, stol, get_lines, to_string_ℤ}

-- A path is the list of its parts.
abbrev pub FsPath : Type 0
FsPath = List Bytes

-- The file system that the loader finds: the contents of a file, `none` when it cannot be opened or read;
-- whether a path exists, false on an error as well; the names in a directory, in the order that its iterator
-- gives, none on an error. `max_size` is the number of elements a `std::vector<u32>` can have.
pub record Host : Type 0 where
  pub file : FsPath → Option Bytes
  pub exists : FsPath → Bool
  pub entries : FsPath → List Bytes
  pub max_size : ℕ

infixl 60 ◌/p◌
abbrev pub ◌/p◌ : FsPath → Bytes → FsPath
p /p name = p ++ name ∷ []

abbrev pub is_blank : ℕ → Bool
is_blank c = c == b'\n' || c == b'\r' || c == b' ' || c == b'\t'

-- The `pop_back` loop on a line.
unfoldable pub pop_blanks : Bytes → Bytes
pop_blanks [] = []
pop_blanks (c ∷ s) = elim (pop_blanks s) [
  | [] ↦ if is_blank c then [] else c ∷ []
  | d ∷ t ↦ c ∷ d ∷ t
]

unfoldable pub read_first_line : Host → FsPath → Option Bytes
read_first_line h p = do
  contents ← h.file p
  elim (get_lines b'\n' contents) [ [] ↦ none | line ∷ lines ↦ some (pop_blanks line) ]

-- `stol` reads at least one byte when it does not throw.
unfoldable pub read_long_file : Host → FsPath → Option ℤ
read_long_file h p = do line ← read_first_line h p; stol line

abbrev pub same_ℤ : ℤ → ℤ → Bool
same_ℤ (pos a) (pos b) = a == b
same_ℤ (pos a) (negsuc b) = false
same_ℤ (negsuc a) (pos b) = false
same_ℤ (negsuc a) (negsuc b) = a == b

-- `name.rfind(prefix, 0) == 0`
abbrev pub starts_with : Bytes → Bytes → Bool
starts_with [] s = true
starts_with (c ∷ prefix) [] = false
starts_with (c ∷ prefix) (d ∷ s) = c == d && starts_with prefix s

abbrev pub has_level : Host → ℤ → FsPath → Bool
has_level h wanted_level p = elim (read_long_file h (p /p bytes "level")) [
  | none ↦ false
  | some level ↦ same_ℤ level wanted_level
]

unfoldable pub find_entry : Host → ℤ → FsPath → List Bytes → Option FsPath
find_entry h wanted_level cache_dir [] = none
find_entry h wanted_level cache_dir (name ∷ names) =
    elim (starts_with (bytes "index") name && has_level h wanted_level (cache_dir /p name)) [
      | true ↦ some (cache_dir /p name)
      | false ↦ find_entry h wanted_level cache_dir names
    ]

unfoldable pub find_cache_level_dir : Host → FsPath → ℤ → Option FsPath
find_cache_level_dir h cpu_dir wanted_level =
    let cache_dir : FsPath = cpu_dir /p bytes "cache" in
    if h.exists cache_dir then find_entry h wanted_level cache_dir (h.entries cache_dir) else none

abbrev pub shared_key : Host → ℤ → FsPath → Option Bytes
shared_key h level index_dir = do
  shared ← read_first_line h (index_dir /p bytes "shared_cpu_list")
  some (bytes "l" ++ to_string_ℤ level ++ bytes ":shared:" ++ shared)

unfoldable pub cache_group_key : Host → FsPath → ℤ → Option Bytes
cache_group_key h cpu_dir level = do
  index_dir ← find_cache_level_dir h cpu_dir level
  elim (read_long_file h (index_dir /p bytes "id")) [
    | some id ↦ some (bytes "l" ++ to_string_ℤ level ++ bytes ":id:" ++ to_string_ℤ id)
    | none ↦ shared_key h level index_dir
  ]
