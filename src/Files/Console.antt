-- ===== src/Files/Console.antt =====
-- Standard input and output of api/src/file/stdio.rs, over the console of axhal and the buffered reader
-- of axio.
use vegar.Prelude.{
  ℕ, zero, suc, ◌-◌, ◌≤◌, ◌||◌, Option, none, some, List, [], ◌∷◌, ◌++◌, ltb, ◌==◌, if◌then◌else◌,
  LinuxResult, ok, err, length,
}

-- `axhal::console`: reading takes at most as many bytes as asked for.
pub record Console : Type 1 where
  pub State : Type 0
  pub read_bytes : ℕ → State → List ℕ × State
  pub write_bytes : List ℕ → State → State
  pub read_bytes-le : (n : ℕ) (s : State) → length (read_bytes n s).0 ≤ n

-- A carriage return becomes a line feed.
unfoldable pub to_newlines : List ℕ → List ℕ
to_newlines [] = []
to_newlines (c ∷ cs) = (if c == 13 then 10 else c) ∷ to_newlines cs

module _ (C : Console) where
  unfoldable pub console_read_bytes : ℕ → C.State → List ℕ × C.State
  console_read_bytes len s = let (got, s') = C.read_bytes len s in (to_newlines got, s')

  unfoldable pub console_write_bytes : List ℕ → C.State → ℕ × C.State
  console_write_bytes buf s = (length buf, C.write_bytes buf s)

  -- The loop of `StdinRaw::read` with room for `room` bytes. None: out of fuel.
  unfoldable pub raw_read_loop : ℕ → ℕ → C.State → Option (List ℕ × C.State)
  raw_read_loop fuel zero s = some ([], s)
  raw_read_loop zero (suc room) s = none
  raw_read_loop (suc fuel) (suc room) s =
      let (got, s') = console_read_bytes (suc room) s in
      let rest = raw_read_loop fuel (suc room - length got) s' in
      if length got == 0
      then some ([], s')
      else (elim rest [ none ↦ none | some (more, s'') ↦ some (got ++ more, s'') ])

  -- Each round but the last reads a byte, so that one round for each byte is enough.
  unfoldable pub raw_read : ℕ → C.State → Option (List ℕ × C.State)
  raw_read len s = raw_read_loop len len s

-- `Stdin::read_blocked`. `attempts` are what the reader gives, one after the other, for a buffer of
-- `len` bytes; the task yields between them. None: out of fuel.
module _ (attempts : ℕ → LinuxResult (List ℕ)) where
  unfoldable pub try_again : ℕ → ℕ → Option (LinuxResult (List ℕ))
  try_again zero i = none
  try_again (suc fuel) i = elim (attempts i) [
    | err e ↦ some (err e)
    | ok [] ↦ try_again fuel (suc i)
    | ok (b ∷ bs) ↦ some (ok (b ∷ bs))
  ]

  unfoldable pub read_blocked : ℕ → ℕ → Option (LinuxResult (List ℕ))
  read_blocked fuel len = elim (attempts 0) [
    | err e ↦ some (err e)
    | ok got ↦ if len == 0 || ltb 0 (length got) then some (ok got) else try_again fuel 1
  ]
