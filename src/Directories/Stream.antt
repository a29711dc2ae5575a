-- ===== src/Directories/Stream.antt =====
-- What `sys_getdents64` of api/src/imp/fs/ctl.rs does with the entries of a directory.
use mathlib.Core.Path.{subst}
use vegar.Prelude.{
  ℕ, ◌+◌, ◌%◌, ◌≤◌, ◌≡◌, refl, ap, ◌∙◌, inl, inr, ◌&&◌, Option, none, some, List, [], ◌∷◌, ◌++◌,
  length, arith, ltb, ◌==◌, if◌then◌else◌, Bool-cases, LinuxResult, ok, err, LinuxResult-cases,
}
use vegar.Directories.Buffer.{
  DirEntry, Dirent, DirBuffer, new_buffer, remaining_space, record_length, write_entry,
}
use vegar.Directories.Calls.{OpenDir, read_loop, is_some, getdents_rest, getdents, sys_getdents64}

-- The entries that are still to come from `read_dir`.
abbrev pub given : List (LinuxResult DirEntry) → List DirEntry
given [] = []
given (ok ent ∷ rest) = ent ∷ given rest
given (err e ∷ rest) = given rest

abbrev pub as_list : Option DirEntry → List DirEntry
as_list none = []
as_list (some ent) = ent ∷ []

-- The entries that a program has not got yet.
abbrev pub pending : OpenDir → List DirEntry
pending d = as_list d.last_dirent ++ given d.to_read

-- The entries that are in a buffer.
abbrev pub entries : List Dirent → List DirEntry
entries [] = []
entries (r ∷ rs) = record { entry_type = r.d_type; name = r.d_name } ∷ entries rs

abbrev pub total : List Dirent → ℕ
total [] = 0
total (r ∷ rs) = r.d_reclen + total rs

-- The records fill the buffer up to the offset, which is inside and at a multiple of 8.
pub record IsPacked (b : DirBuffer) : Type 0 where
  pub inside : b.offset ≤ b.buf_len
  pub filled : total b.written ≡ b.offset
  pub aligned : b.offset % 8 ≡ 0

-- Names have at most 255 bytes, as in axfs.
abbrev pub AreShort : List DirEntry → Type 0
AreShort [] = Unit {0}
AreShort (ent ∷ ents) = (length ent.name ≤ 255) × AreShort ents

entries-append : (rs ss : List Dirent) → entries (rs ++ ss) ≡ entries rs ++ entries ss
entries-append [] ss = refl
entries-append (r ∷ rs) ss =
    ap (λ l. record { entry_type = r.d_type; name = r.d_name } ∷ l) (entries-append rs ss)

total-append : (rs ss : List Dirent) → total (rs ++ ss) ≡ total rs + total ss
total-append [] ss = omega arith
total-append (r ∷ rs) ss = omega (arith, total-append rs ss)

append_assoc : (xs ys zs : List DirEntry) → (xs ++ ys) ++ zs ≡ xs ++ (ys ++ zs)
append_assoc [] ys zs = refl
append_assoc (x ∷ xs) ys zs = ap (λ l. x ∷ l) (append_assoc xs ys zs)

-- What `write_entry` does to the entries in the buffer.
write_entry-entries :
    (ent : DirEntry) (b : DirBuffer)
    → let out = write_entry ent.entry_type ent.name b in
      entries out.1.written ≡ (if out.0 then entries b.written ++ (ent ∷ []) else entries b.written)
unfolding write_entry
write_entry-entries ent b = elim (Bool-cases (ltb (remaining_space b) (record_length ent.name))) [
  | inl full ↦ rw full refl
  | inr room ↦ rw room (entries-append b.written _)
]

write_entry-IsPacked :
    (ent : DirEntry) (b : DirBuffer)
    → length ent.name ≤ 255
    → IsPacked b
    → IsPacked (write_entry ent.entry_type ent.name b).1
unfolding write_entry remaining_space
write_entry-IsPacked ent b short p =
    elim (Bool-cases (ltb (remaining_space b) (record_length ent.name))) [
      | inl full ↦ rw (full) p
      | inr room ↦ rw room (record {
        inside = ground (arith, p.inside);
        filled = total-append b.written _ ∙ ground (arith, p.filled);
        aligned = ground (arith, p.aligned);
      })
    ]

-- The loop keeps every entry, in the buffer or for the next call, in order.
read_loop-entries :
    (to_read : List (LinuxResult DirEntry)) (b : DirBuffer)
    → let out = read_loop to_read b in
      entries out.2.written ++ pending out.1 ≡ entries b.written ++ given to_read
unfolding read_loop
read_loop-entries [] b = refl
read_loop-entries (err e ∷ rest) b = refl
read_loop-entries (ok ent ∷ rest) b =
    let one = write_entry ent.entry_type ent.name b in
    let written = write_entry-entries ent b in
    elim (Bool-cases one.0) [
      | inl fits ↦
          let here : entries one.1.written ≡ entries b.written ++ (ent ∷ []) = written ∙ rw fits in
          rw fits (
            read_loop-entries rest one.1
            ∙ ap (λ l. l ++ given rest) here
            ∙ append_assoc (entries b.written) (ent ∷ []) (given rest))
      | inr full ↦
          let here : entries one.1.written ≡ entries b.written = written ∙ rw full in
          rw full (ap (λ l. l ++ (ent ∷ given rest)) here)
    ]

read_loop-IsPacked :
    (to_read : List (LinuxResult DirEntry)) (b : DirBuffer)
    → AreShort (given to_read)
    → IsPacked b
    → IsPacked (read_loop to_read b).2
unfolding read_loop
read_loop-IsPacked [] b short p = p
read_loop-IsPacked (err e ∷ rest) b short p = p
read_loop-IsPacked (ok ent ∷ rest) b short p =
    let one = write_entry ent.entry_type ent.name b in
    let q = write_entry-IsPacked ent b short.0 p in
    elim (Bool-cases one.0) [
      | inl fits ↦ rw fits (read_loop-IsPacked rest one.1 short.1 q)
      | inr full ↦ rw full q
    ]

-- A call keeps the entries of `b` and of `ents`, and gives a packed buffer and its offset.
abbrev pub Keeps : List DirEntry → LinuxResult ℕ × OpenDir × DirBuffer → Type 0
Keeps ents out =
    (entries out.2.written ++ pending out.1 ≡ ents)
    × IsPacked out.2
    × ((n : ℕ) → out.0 ≡ ok n → n ≡ out.2.offset)

getdents_rest-Keeps :
    (to_read : List (LinuxResult DirEntry)) (b : DirBuffer)
    → AreShort (given to_read)
    → IsPacked b
    → Keeps (entries b.written ++ given to_read) (getdents_rest to_read b)
unfolding getdents_rest
getdents_rest-Keeps to_read b short p =
    let out = read_loop to_read b in
    let kept = read_loop-entries to_read b in
    let packed = read_loop-IsPacked to_read b short p in
    elim (LinuxResult-cases out.0) [
      | inl (e, r) ↦ rw (getdents_rest, r) (kept, packed, λ n eq. ground (arith, eq))
      | inr (u, r) ↦ elim (Bool-cases (is_some out.1.last_dirent && (out.2.offset == 0))) [
        | inl none_fits ↦
            rw (getdents_rest, r) (rw none_fits (kept, packed, λ n eq. ground (arith, eq)))
        | inr some_fit ↦
            rw (getdents_rest, r) (rw some_fit (kept, packed, λ n eq. ground (arith, eq)))
      ]
    ]

new_buffer-IsPacked : (len : ℕ) → IsPacked (new_buffer len)
unfolding new_buffer
new_buffer-IsPacked len = record { inside = omega arith; filled = refl; aligned = refl }

getdents-Keeps :
    (len : ℕ) (last : Option DirEntry) (to_read : List (LinuxResult DirEntry))
    → let d : OpenDir = record { last_dirent = last; to_read = to_read } in
      AreShort (pending d) → Keeps (pending d) (getdents len d)
unfolding getdents new_buffer
getdents-Keeps len none to_read short =
    getdents_rest-Keeps to_read (new_buffer len) short (new_buffer-IsPacked len)
getdents-Keeps len (some ent) to_read short =
    let one = write_entry ent.entry_type ent.name (new_buffer len) in
    let written = write_entry-entries ent (new_buffer len) in
    let packed = write_entry-IsPacked ent (new_buffer len) short.0 (new_buffer-IsPacked len) in
    elim (Bool-cases one.0) [
      | inl fits ↦
          let here : entries one.1.written ≡ ent ∷ [] = written ∙ rw fits in
          rw fits (
            subst (λ l. Keeps (l ++ given to_read) (getdents_rest to_read one.1)) here
              (getdents_rest-Keeps to_read one.1 short.1 packed))
      | inr full ↦
          let here : entries one.1.written ≡ [] = written ∙ rw full in
          rw full (ap (λ l. l ++ (ent ∷ given to_read)) here, packed, λ n eq. ground (arith, eq))
    ]

-- If the names of the entries that are left have at most 255 bytes, then whatever a call of
-- `sys_getdents64` returns, the entries in its buffer and those that are left for the next calls
-- are together those that were left before it, in order; the records fill the buffer, which they
-- do not exceed, up to an offset that is a multiple of 8, and a call that succeeds returns that
-- offset.
pub sys_getdents64_keeps :
    (buf_check fd_check : LinuxResult (Unit {0})) (len : ℕ) (d : OpenDir)
    → AreShort (pending d)
    → let out = sys_getdents64 buf_check fd_check len d in
      (entries out.2.written ++ pending out.1 ≡ pending d)
      × IsPacked out.2
      × ((n : ℕ) → out.0 ≡ ok n → n ≡ out.2.offset)
unfolding sys_getdents64
sys_getdents64_keeps (err e) fd_check len d short =
    (unfold new_buffer in refl, new_buffer-IsPacked len, λ n eq. ground (arith, eq))
sys_getdents64_keeps (ok u) (err e) len d short =
    (unfold new_buffer in refl, new_buffer-IsPacked len, λ n eq. ground (arith, eq))
sys_getdents64_keeps (ok u) (ok v) len d short = getdents-Keeps len d.last_dirent d.to_read short
