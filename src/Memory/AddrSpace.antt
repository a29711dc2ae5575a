-- ===== src/Memory/AddrSpace.antt =====
-- `axmm::AddrSpace` and the files of `axfs`, as far as api/src/imp/mm/mmap.rs relies on them.
use vegar.Prelude.{
  ℕ, ◌+◌, ◌≤◌, ◌<◌, ◌≡◌, Bool, ◌&&◌, Option, none, some, List, ltb, leb, if◌then◌else◌, LinuxResult,
  ok,
}

-- `MappingFlags`
pub record MappingFlags : Type 0 where
  pub user : Bool
  pub read : Bool
  pub write : Bool
  pub execute : Bool

-- An address in an area of so many bytes.
abbrev pub within : ℕ → ℕ → ℕ → Bool
within start size x = leb start x && ltb x (start + size)

pub record AddrSpace : Type 1 where
  pub Space : Type 0
  -- How an address is mapped.
  pub flags_at : Space → ℕ → Option MappingFlags
  pub base : Space → ℕ
  -- `find_free_area(hint, size, the whole space, page size)`
  pub find_free_area : Space → ℕ → ℕ → ℕ → Option ℕ
  pub map_alloc : Space → ℕ → ℕ → MappingFlags → Bool → ℕ → LinuxResult (Unit {0}) × Space
  pub unmap : Space → ℕ → ℕ → LinuxResult (Unit {0}) × Space
  pub protect : Space → ℕ → ℕ → MappingFlags → LinuxResult (Unit {0}) × Space
  pub write : Space → ℕ → ℕ → List ℕ → LinuxResult (Unit {0}) × Space
  pub find_free_area-free :
      (s : Space) (hint size page a x : ℕ)
      → find_free_area s hint size page ≡ some a
      → a ≤ x
      → x < a + size
      → flags_at s x ≡ none
  pub flags_at-map_alloc :
      (s : Space) (a size : ℕ) (f : MappingFlags) (populate : Bool) (page x : ℕ)
      → (map_alloc s a size f populate page).0 ≡ ok tt
      → flags_at (map_alloc s a size f populate page).1 x
        ≡ (if within a size x then some f else flags_at s x)
  pub flags_at-unmap :
      (s : Space) (a size x : ℕ)
      → (unmap s a size).0 ≡ ok tt
      → flags_at (unmap s a size).1 x ≡ (if within a size x then none else flags_at s x)
  pub flags_at-write :
      (s : Space) (a page : ℕ) (bytes : List ℕ) (x : ℕ)
      → flags_at (write s a page bytes).1 x ≡ flags_at s x

pub record Files : Type 1 where
  pub File : Type 0
  pub from_fd : ℕ → LinuxResult File
  pub size : File → LinuxResult ℕ
  -- A buffer of so many bytes, with what was read at an offset.
  pub read_at : File → ℕ → ℕ → LinuxResult (List ℕ)
