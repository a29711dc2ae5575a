-- ===== src/FdTable/Tests.antt =====
-- Descriptor tables at concrete files, over the container of `Instance`.
use vegar.Prelude.{
  ℕ, ◌≤◌, ◌<◌, ◌≡◌, ◌≢◌, ◌⊎◌, refl, none, some, ◌==◌, if◌then◌else◌, ok, err, ebadf, emfile,
}
use vegar.FdTable.Objects.{FlattenObjects}
use vegar.FdTable.Calls.{as_usize, returns, panics, sys_dup, sys_dup2, pipe2}
use vegar.FdTable.Dup.{sys_dup2_cases}
use vegar.FdTable.Instance.{Slots, flatten}

-- Room for four descriptors.
abbrev small : FlattenObjects ℕ
small = flatten 4

open small use {Table, get}

-- Files 10, 11 and 12 under 0, 1 and 2.
abbrev stdio : (Slots ℕ)
stdio i = if i == 0 then some 10 else if i == 1 then some 11 else if i == 2 then some 12 else none

dup_last : (sys_dup small stdio 1).0 ≡ ok 3
unfolding sys_dup
dup_last = refl

pipe_no_room : (pipe2 small stdio 20 21).0 ≡ returns (err emfile)
unfolding pipe2
pipe_no_room = refl

sys_dup2_cases_example :
    let (out, t') = sys_dup2 small stdio 1 9 in
    ((get stdio (as_usize 1) ≡ none) × (out ≡ returns (err ebadf)) × (t' ≡ stdio))
    ⊎ ((f : ℕ) × (get stdio (as_usize 1) ≡ some f)
        × ((◌≡◌ {A = ℕ} 1 9 × (out ≡ returns (ok 9)) × (t' ≡ stdio))
            ⊎ ((◌≢◌ {A = ℕ} 1 9
                  × (as_usize 9 < 4)
                  × (out ≡ returns (ok 9))
                  × ((j : ℕ) → get t' j ≡ (if as_usize 9 == j then some f else get stdio j)))
                ⊎ (◌≢◌ {A = ℕ} 1 9 × (4 ≤ as_usize 9) × (out ≡ panics)))))
sys_dup2_cases_example = sys_dup2_cases small stdio 1 9
