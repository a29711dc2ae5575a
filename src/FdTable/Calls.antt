-- ===== src/FdTable/Calls.antt =====
-- `get_file_like`, `add_file_like`, `close_file_like`, `copy_inner`, `clear` and `init_stdio` of
-- api/src/file/mod.rs, `sys_close`, `sys_dup`, `sys_dup2` and `sys_fcntl` of
-- api/src/imp/fs/fd_ops.rs, and `sys_pipe2` of api/src/imp/fs/pipe.rs. Each holds the lock of the
-- table while it works. A descriptor is a `c_int` as a bit pattern of 32 bits.
use vegar.Prelude.{
  ℕ, ◌+◌, ◌-◌, ◌^◌, Bool, ◌||◌, Option, none, some, List, [], ◌∷◌, ltb, ◌==◌, if◌then◌else◌,
  bit_and, LinuxResult, ok, err, ebadf, emfile,
}
use vegar.FdTable.Objects.{FlattenObjects}

-- `fd as usize`: the sign is extended.
abbrev pub as_usize : ℕ → ℕ
as_usize fd = if ltb fd (2 ^ 31) then fd else fd + (2 ^ 64 - 2 ^ 32)

-- What a call gives: a result, or a panic of the kernel.
pub data Outcome (A : Type 0) : Type 0 where
  returns : LinuxResult A → Outcome A
  panics : Outcome A

abbrev pub f_dupfd : ℕ
f_dupfd = 0

abbrev pub f_setfl : ℕ
f_setfl = 4

abbrev pub f_dupfd_cloexec : ℕ
f_dupfd_cloexec = 1030

module _ {A : Type 0} (O : FlattenObjects A) where
  open O use {Table, new, get, add, add_at, remove, ids}

  unfoldable pub get_file_like : Table → ℕ → LinuxResult A
  get_file_like t fd = elim (get t (as_usize fd)) [ none ↦ err ebadf | some f ↦ ok f ]

  unfoldable pub add_file_like : Table → A → LinuxResult ℕ × Table
  add_file_like t f = elim (add t f) [ none ↦ (err emfile, t) | some (i, t') ↦ (ok i, t') ]

  unfoldable pub close_file_like : Table → ℕ → LinuxResult (Unit {0}) × Table
  close_file_like t fd =
      let (f, t') = remove t (as_usize fd) in
      elim f [ none ↦ (err ebadf, t') | some _ ↦ (ok tt, t') ]

  unfoldable pub sys_close : Table → ℕ → LinuxResult ℕ × Table
  unfolding close_file_like
  sys_close t fd =
      let (r, t') = close_file_like t fd in elim r [ err e ↦ (err e, t') | ok _ ↦ (ok 0, t') ]

  unfoldable pub dup_fd : Table → ℕ → LinuxResult ℕ × Table
  unfolding get_file_like add_file_like
  dup_fd t old_fd = elim (get_file_like t old_fd) [ err e ↦ (err e, t) | ok f ↦ add_file_like t f ]

  unfoldable pub sys_dup : Table → ℕ → LinuxResult ℕ × Table
  unfolding dup_fd
  sys_dup t old_fd = dup_fd t old_fd

  -- `add_at(...).unwrap_or_else(|_| panic!(...))`
  unfoldable pub replace : Table → ℕ → A → Outcome ℕ × Table
  replace t new_fd f = elim (add_at (remove t (as_usize new_fd)).1 (as_usize new_fd) f) [
    | none ↦ (panics, (remove t (as_usize new_fd)).1)
    | some t' ↦ (returns (ok new_fd), t')
  ]

  unfoldable pub sys_dup2 : Table → ℕ → ℕ → Outcome ℕ × Table
  unfolding replace
  sys_dup2 t old_fd new_fd = elim (get t (as_usize old_fd)) [
    | none ↦ (returns (err ebadf), t)
    | some f ↦ if old_fd == new_fd then (returns (ok new_fd), t) else replace t new_fd f
  ]

  -- The loop of `copy_inner`: `let _ = new_table.add_at(id, table.get(id).unwrap().clone())`.
  unfoldable pub copy_ids : Table → List ℕ → Table → Table
  copy_ids t [] new_table = new_table
  copy_ids t (i ∷ is) new_table = copy_ids t is (elim (get t i) [
    | none ↦ new_table
    | some f ↦ elim (add_at new_table i f) [ none ↦ new_table | some t' ↦ t' ]
  ])

  unfoldable pub copy_inner : Table → Table
  copy_inner t = copy_ids t (ids t) new

  unfoldable pub remove_ids : List ℕ → Table → Table
  remove_ids [] t = t
  remove_ids (i ∷ is) t = remove_ids is (remove t i).1

  unfoldable pub clear : Table → Table
  clear t = remove_ids (ids t) t

  -- `init_stdio`; `none` is its panic.
  unfoldable pub init_stdio : A → A → A → Option Table
  init_stdio stdin stdout stderr = elim (add_at new 0 stdin) [
    | none ↦ none
    | some t0 ↦ elim (add_at t0 1 stdout) [ none ↦ none | some t1 ↦ add_at t1 2 stderr ]
  ]

  -- `sys_pipe2` behind the check of `fds`: the two descriptors. `close_file_like(read_fd).unwrap()`
  -- panics if the read end is not there.
  unfoldable pub pipe2 : Table → A → A → Outcome (ℕ × ℕ) × Table
  unfolding add_file_like close_file_like
  pipe2 t read_end write_end =
      let (added, t0) = add_file_like t read_end in
      elim added [
        | err e ↦ (returns (err e), t0)
        | ok read_fd ↦
            let (added', t1) = add_file_like t0 write_end in
            elim added' [
              | ok write_fd ↦ (returns (ok (read_fd, write_fd)), t1)
              | err e ↦
                  let (closed, t2) = close_file_like t1 read_fd in
                  elim closed [ ok _ ↦ (returns (err e), t2) | err _ ↦ (panics, t2) ]
            ]
      ]

  -- `sys_fcntl`. `set_nonblocking` is that of the file behind the descriptor.
  unfoldable pub sys_fcntl :
      (A → Bool → LinuxResult (Unit {0})) → ℕ → Table → ℕ → ℕ → ℕ → LinuxResult ℕ × Table
  unfolding dup_fd
  sys_fcntl set_nonblocking o_nonblock t fd cmd arg =
      if cmd == f_dupfd
      then dup_fd t fd
      else if cmd == f_dupfd_cloexec
      then dup_fd t fd
      else if cmd == f_setfl
      then (if fd == 0 || fd == 1 || fd == 2 then (ok 0, t) else elim (get_file_like t fd) [
        | err e ↦ (err e, t)
        | ok f ↦ elim (set_nonblocking f (ltb 0 (bit_and arg o_nonblock))) [
          | err e ↦ (err e, t)
          | ok _ ↦ (ok 0, t)
        ]
      ])
      else (ok 0, t)
