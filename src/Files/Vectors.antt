-- ===== src/Files/Vectors.antt =====
-- api/src/imp/fs/io.rs: `sys_read`, `sys_readv`, `sys_write`, `sys_writev` and `sys_lseek`.
use vegar.Prelude.{
  ℕ, Option, none, some, List, [], ◌∷◌, ltb, leb, ◌==◌, if◌then◌else◌, LinuxResult, ok, err, einval,
  add_usize, length,
}
use vegar.Pointers.Access.{Access, returns, panics}
use vegar.FdTable.Objects.{FlattenObjects}
use vegar.FdTable.Calls.{get_file_like}
use vegar.Files.Objects.{SeekFrom, start, current, end, Inner, Object, file_like, file_from_fd}

-- What the checks of a user pointer give: that a buffer may be written, the bytes of a buffer, and the
-- elements of an array of `iovec`. The kernel panics on a buffer that is longer than a layout can be;
-- an array of 1024 elements is not.
pub record Iovec : Type 0 where
  pub iov_base : ℕ
  pub iov_len : ℕ

pub record UserBuffers : Type 0 where
  pub slice_mut : ℕ → ℕ → Access (Unit {0})
  pub slice : ℕ → ℕ → Access (List ℕ)
  pub iovecs : ℕ → ℕ → LinuxResult (List Iovec)

-- Bytes that are written to user memory, from an address on.
abbrev pub Filled : Type 0
Filled = List (ℕ × List ℕ)

module _ {State : Type 0} (I : Inner State) (O : FlattenObjects (Object I)) (U : UserBuffers) where
  -- `get_file_like(fd)?.read(buf)`
  unfoldable pub read_fd : O.Table → ℕ → ℕ → State → LinuxResult (List ℕ) × State
  read_fd t fd len s = elim (get_file_like O t fd) [
    | err e ↦ (err e, s)
    | ok f ↦ (file_like I f).read len s
  ]

  unfoldable pub write_fd : O.Table → ℕ → List ℕ → State → LinuxResult ℕ × State
  write_fd t fd buf s = elim (get_file_like O t fd) [
    | err e ↦ (err e, s)
    | ok f ↦ (file_like I f).write buf s
  ]

  abbrev pub fill_one : ℕ → LinuxResult (List ℕ) × State → Access ℕ × Filled × State
  fill_one buf (ok got, s) = (returns (ok (length got)), (buf, got) ∷ [], s)
  fill_one buf (err e, s) = (returns (err e), [], s)

  unfoldable pub sys_read : O.Table → ℕ → ℕ → ℕ → State → Access ℕ × Filled × State
  sys_read t fd buf len s = elim (U.slice_mut buf len) [
    | panics ↦ (panics, [], s)
    | returns (err e) ↦ (returns (err e), [], s)
    | returns (ok _) ↦ fill_one buf (read_fd t fd len s)
  ]

  unfoldable pub sys_write : O.Table → ℕ → ℕ → ℕ → State → Access ℕ × State
  sys_write t fd buf len s = elim (U.slice buf len) [
    | panics ↦ (panics, s)
    | returns (err e) ↦ (returns (err e), s)
    | returns (ok bytes) ↦ let out = write_fd t fd bytes s in (returns out.0, out.1)
  ]

  -- What a round of `sys_readv` leaves to the next ones: they go on with a new state, or are not made.
  abbrev pub after_read :
      Iovec
      → ℕ
      → LinuxResult (List ℕ) × State
      → (ℕ → State → Access ℕ × Filled × State)
      → Access ℕ × Filled × State
  after_read iov ret (err e, s) go = (returns (err e), [], s)
  after_read iov ret (ok got, s) go =
      let ret' = add_usize ret (length got) in
      let rest = go ret' s in
      if ltb (length got) iov.iov_len
      then (returns (ok ret'), (iov.iov_base, got) ∷ [], s)
      else (rest.0, (iov.iov_base, got) ∷ rest.1, rest.2)

  unfoldable pub readv_loop : O.Table → ℕ → List Iovec → ℕ → State → Access ℕ × Filled × State
  readv_loop t fd [] ret s = (returns (ok ret), [], s)
  readv_loop t fd (iov ∷ iovs) ret s =
      let skipped = readv_loop t fd iovs ret s in
      if iov.iov_len == 0 then skipped else (elim (U.slice_mut iov.iov_base iov.iov_len) [
        | panics ↦ (panics, [], s)
        | returns (err e) ↦ (returns (err e), [], s)
        | returns (ok _) ↦
            after_read iov ret (read_fd t fd iov.iov_len s)
              (λ ret' s'. readv_loop t fd iovs ret' s')
      ])

  unfoldable pub sys_readv : O.Table → ℕ → ℕ → ℕ → State → Access ℕ × Filled × State
  sys_readv t fd iov iocnt s =
      if leb iocnt 1024
      then (elim (U.iovecs iov iocnt) [
        | err e ↦ (returns (err e), [], s)
        | ok iovs ↦ readv_loop t fd iovs 0 s
      ])
      else (returns (err einval), [], s)

  abbrev pub after_write :
      ℕ → ℕ → LinuxResult ℕ × State → (ℕ → State → Access ℕ × State) → Access ℕ × State
  after_write len ret (err e, s) go = (returns (err e), s)
  after_write len ret (ok written, s) go =
      let ret' = add_usize ret written in
      let rest = go ret' s in if ltb written len then (returns (ok ret'), s) else rest

  unfoldable pub writev_loop : O.Table → ℕ → List Iovec → ℕ → State → Access ℕ × State
  writev_loop t fd [] ret s = (returns (ok ret), s)
  writev_loop t fd (iov ∷ iovs) ret s =
      let skipped = writev_loop t fd iovs ret s in
      if iov.iov_len == 0 then skipped else (elim (U.slice iov.iov_base iov.iov_len) [
        | panics ↦ (panics, s)
        | returns (err e) ↦ (returns (err e), s)
        | returns (ok buf) ↦
            after_write (length buf) ret (write_fd t fd buf s)
              (λ ret' s'. writev_loop t fd iovs ret' s')
      ])

  unfoldable pub sys_writev : O.Table → ℕ → ℕ → ℕ → State → Access ℕ × State
  sys_writev t fd iov iocnt s =
      if leb iocnt 1024
      then (elim (U.iovecs iov iocnt) [
        | err e ↦ (returns (err e), s)
        | ok iovs ↦ writev_loop t fd iovs 0 s
      ])
      else (returns (err einval), s)

  -- Offsets are words; the file system reads them with or without a sign.
  unfoldable pub seek_from : ℕ → ℕ → Option SeekFrom
  seek_from offset whence =
      if whence == 0
      then some (start offset)
      else if whence == 1
      then some (current offset)
      else if whence == 2
      then some (end offset)
      else none

  unfoldable pub sys_lseek : O.Table → ℕ → ℕ → ℕ → State → LinuxResult ℕ × State
  sys_lseek t fd offset whence s = elim (seek_from offset whence) [
    | none ↦ (err einval, s)
    | some pos ↦ elim (file_from_fd I O t fd) [ err e ↦ (err e, s) | ok f ↦ I.file_seek f pos s ]
  ]
