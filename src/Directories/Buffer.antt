-- ===== src/Directories/Buffer.antt =====
-- `DirBuffer` of api/src/imp/fs/ctl.rs. The buffer is the list of the `linux_dirent64` that were written to
-- it, one behind the other.
use vegar.Prelude.{
  ℕ, ◌+◌, ◌-◌, ◌%◌, ◌^◌, Bool, true, false, List, [], ◌∷◌, ◌++◌, length, ltb, if◌then◌else◌,
}

pub data FileType : Type 0 where
  unknown fifo chr dir blk reg lnk socket : FileType

-- `From<axfs::api::FileType>`, by the two tests of it.
unfoldable pub to_file_type : Bool → Bool → FileType
to_file_type is_dir is_file = if is_dir then dir else if is_file then reg else unknown

-- `linux_dirent64`
pub record Dirent : Type 0 where
  pub d_ino : ℕ
  pub d_off : ℕ
  pub d_reclen : ℕ
  pub d_type : FileType
  pub d_name : List ℕ

-- `DirEntry` of axfs, by its type and its name.
pub record DirEntry : Type 0 where
  pub entry_type : FileType
  pub name : List ℕ

pub record DirBuffer : Type 0 where
  pub buf_len : ℕ
  pub offset : ℕ
  pub written : List Dirent

unfoldable pub new_buffer : ℕ → DirBuffer
new_buffer len = record { buf_len = len; offset = 0; written = [] }

unfoldable pub remaining_space : DirBuffer → ℕ
remaining_space b = b.buf_len - b.offset

-- `offset_of!(linux_dirent64, d_name)`
abbrev pub name_offset : ℕ
name_offset = 19

-- `next_multiple_of(align_of::<linux_dirent64>())`
abbrev pub next_multiple_of_8 : ℕ → ℕ
next_multiple_of_8 n = n + (8 - n % 8) % 8

-- The length of a record, with the zero behind the name.
abbrev pub record_length : List ℕ → ℕ
record_length name = next_multiple_of_8 (name_offset + length name + 1)

unfoldable pub write_entry : FileType → List ℕ → DirBuffer → Bool × DirBuffer
write_entry d_type name b =
    let len = record_length name in
    if ltb (remaining_space b) len then (false, b) else (
      true,
      record b {
        offset = b.offset + len;
        written =
            b.written
            ++ (record {
              d_ino = 1;
              d_off = 0;
              d_reclen = len % 2 ^ 16;
              d_type = d_type;
              d_name = name;
            }
                ∷ []);
      },
    )
