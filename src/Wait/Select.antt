-- ===== src/Wait/Select.antt =====
-- Which children `sys_waitpid` of api/src/imp/task/wait.rs waits for.
use vegar.Prelude.{
  ℕ, ◌+◌, ◌-◌, ◌%◌, ◌^◌, ◌<◌, ◌≤◌, ◌≡◌, ◌⊎◌, ◌↔◌, Bool, true, false, ◌&&◌, ◌||◌, not, Option, none,
  some, List, [], ◌∷◌, bit_and, arith, ltb, ◌==◌, if◌then◌else◌,
}

-- A process, by what does not change while its parent waits.
pub record Process : Type 0 where
  pub pid : ℕ
  pub pgid : ℕ
  pub exit_signal : Option ℕ
  -- Whether it has its `ProcessData`.
  pub has_data : Bool

abbrev pub sigchld : ℕ
sigchld = 17

-- `ProcessData::is_clone_child`
unfoldable pub is_clone_child : Process → Bool
is_clone_child p = elim p.exit_signal [ none ↦ true | some signo ↦ not (signo == sigchld) ]

pub data WaitPid : Type 0 where
  wait_any : WaitPid
  wait_pid : ℕ → WaitPid
  wait_pgid : ℕ → WaitPid

unfoldable pub apply : WaitPid → Process → Bool
apply wait_any child = true
apply (wait_pid n) child = child.pid == n
apply (wait_pgid n) child = child.pgid == n

-- `-1` as the word of an `i32`.
abbrev pub minus_one : ℕ
minus_one = 2 ^ 32 - 1

-- `-pid as _`
abbrev pub negate : ℕ → ℕ
negate a = (2 ^ 32 - a) % 2 ^ 32

-- The kind of wait of an argument, for a process in the group `own_pgid`.
unfoldable pub to_wait_pid : ℕ → ℕ → WaitPid
to_wait_pid own_pgid arg =
    if arg == minus_one
    then wait_any
    else if arg == 0
    then wait_pgid own_pgid
    else if ltb arg (2 ^ 31)
    then wait_pid arg
    else wait_pgid (negate arg)

abbrev pub wnohang : ℕ
wnohang = 1

abbrev pub wnowait : ℕ
wnowait = 0x1000000

abbrev pub wall : ℕ
wall = 0x40000000

abbrev pub wclone : ℕ
wclone = 0x80000000

-- All flags of `WaitOptions`.
abbrev pub options_all : ℕ
options_all = 0xe100000f

abbrev pub contains : ℕ → ℕ → Bool
contains options flag = bit_and options flag == flag

abbrev pub same : Bool → Bool → Bool
same true b = b
same false b = not b

-- The second filter.
unfoldable pub fits_kind : ℕ → Process → Bool
fits_kind options child =
    contains options wall || same (contains options wclone) (is_clone_child child)

abbrev pub filter : (Process → Bool) → List Process → List Process
filter test [] = []
filter test (p ∷ ps) = if test p then p ∷ filter test ps else filter test ps

abbrev pub lacks_data : List Process → Bool
lacks_data [] = false
lacks_data (p ∷ ps) = not p.has_data || lacks_data ps

-- `child.data::<ProcessData>().unwrap()` in the second filter, which stands behind the test of `WALL`.
unfoldable pub filter_panics : ℕ → ℕ → ℕ → List Process → Bool
filter_panics own_pgid arg options ps =
    not (contains options wall) && lacks_data (filter (apply (to_wait_pid own_pgid arg)) ps)

-- `children`
unfoldable pub select : ℕ → ℕ → ℕ → List Process → List Process
select own_pgid arg options ps =
    filter (fits_kind options) (filter (apply (to_wait_pid own_pgid arg)) ps)

-- In words of `waitpid`: -1 is any child, 0 a child in the own group, a positive number the child
-- with that id, and any other negative one a child in the group of its absolute value.
abbrev pub IsWanted : ℕ → ℕ → Process → Type 0
IsWanted own_pgid arg child =
    (arg ≡ minus_one)
    ⊎ (((arg ≡ 0) × (child.pgid ≡ own_pgid))
        ⊎ (((0 < arg) × (arg < 2 ^ 31) × (child.pid ≡ arg))
            ⊎ ((2 ^ 31 ≤ arg) × (child.pgid + arg ≡ 2 ^ 32))))

-- For the word `arg` of an `i32` and a child whose group is the word of a `u32`, the kind of wait that is
-- read off `arg` admits the child exactly where `waitpid` means it to.
pub apply_iff :
    (own_pgid arg : ℕ) (child : Process)
    → arg < 2 ^ 32
    → child.pgid < 2 ^ 32
    → (apply (to_wait_pid own_pgid arg) child ≡ true) ↔ IsWanted own_pgid arg child
unfolding apply to_wait_pid
apply_iff own_pgid arg child a g = ground arith
