-- ===== src/Files/Stats.antt =====
-- `Kstat` of api/src/file/mod.rs and what it becomes in user memory. A field of the C structures that
-- is set nowhere is 0, and is left out here.
use Prim.Native.Nat.{bit_or}
use vegar.Prelude.{ℕ, ◌*◌, ◌%◌, ◌^◌}

pub record Kstat : Type 0 where
  pub ino : ℕ
  pub nlink : ℕ
  pub uid : ℕ
  pub gid : ℕ
  pub mode : ℕ
  pub size : ℕ
  pub blocks : ℕ
  pub blksize : ℕ

unfoldable pub default_kstat : Kstat
default_kstat = record {
  ino = 1;
  nlink = 1;
  uid = 1;
  gid = 1;
  mode = 0;
  size = 0;
  blocks = 0;
  blksize = 4096;
}

pub record Stat : Type 0 where
  pub st_ino : ℕ
  pub st_nlink : ℕ
  pub st_mode : ℕ
  pub st_uid : ℕ
  pub st_gid : ℕ
  pub st_size : ℕ
  pub st_blksize : ℕ
  pub st_blocks : ℕ

unfoldable pub to_stat : Kstat → Stat
to_stat value = record {
  st_ino = value.ino;
  st_nlink = value.nlink;
  st_mode = value.mode;
  st_uid = value.uid;
  st_gid = value.gid;
  st_size = value.size;
  st_blksize = value.blksize;
  st_blocks = value.blocks;
}

pub record Statx : Type 0 where
  pub stx_blksize : ℕ
  pub stx_attributes : ℕ
  pub stx_nlink : ℕ
  pub stx_uid : ℕ
  pub stx_gid : ℕ
  pub stx_mode : ℕ
  pub stx_ino : ℕ
  pub stx_size : ℕ
  pub stx_blocks : ℕ

-- `stx_mode` has 16 bits.
unfoldable pub to_statx : Kstat → Statx
to_statx value = record {
  stx_blksize = value.blksize;
  stx_attributes = value.mode;
  stx_nlink = value.nlink;
  stx_uid = value.uid;
  stx_gid = value.gid;
  stx_mode = value.mode % 2 ^ 16;
  stx_ino = value.ino;
  stx_size = value.size;
  stx_blocks = value.blocks;
}

-- `S_IFCHR`, `S_IFDIR` and `S_IFSOCK`
abbrev pub s_ifchr : ℕ
s_ifchr = 0x2000

abbrev pub s_ifdir : ℕ
s_ifdir = 0x4000

abbrev pub s_ifsock : ℕ
s_ifsock = 0xc000

-- What axfs says of a file: `file_type`, `perm`, `size` and `blocks`.
pub record FileAttr : Type 0 where
  pub file_type : ℕ
  pub perm : ℕ
  pub size : ℕ
  pub blocks : ℕ

-- `((ty as u32) << 12) | perm`, with `file_type` as `u8`.
unfoldable pub file_kstat : FileAttr → Kstat
unfolding default_kstat
file_kstat metadata = record default_kstat {
  mode = bit_or (metadata.file_type % 2 ^ 8 * 2 ^ 12) metadata.perm;
  size = metadata.size;
  blocks = metadata.blocks;
  blksize = 512;
}

-- `S_IFDIR | 0o755`
unfoldable pub directory_kstat : Kstat
unfolding default_kstat
directory_kstat = record default_kstat { mode = bit_or s_ifdir 0x1ed }

-- `S_IFCHR | 0o444` and `S_IFCHR | 0o220`
unfoldable pub stdin_kstat : Kstat
unfolding default_kstat
stdin_kstat = record default_kstat { mode = bit_or s_ifchr 0x124 }

unfoldable pub stdout_kstat : Kstat
unfolding default_kstat
stdout_kstat = record default_kstat { mode = bit_or s_ifchr 0x90 }

-- `S_IFSOCK | 0o777`
unfoldable pub socket_kstat : Kstat
unfolding default_kstat
socket_kstat = record default_kstat { mode = bit_or s_ifsock 0x1ff; blksize = 4096 }
