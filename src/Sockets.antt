-- ===== src/Sockets.antt =====
-- api/src/socket.rs: socket addresses in the memory of a user. The memory that a valid `sockaddr`
-- pointer stands for is a list of `sockaddr_size` bytes; the targets are little-endian.
pub mod Bytes
pub mod Safety
pub mod RoundTrip
mod Tests
use vegar.Prelude.{
  ℕ, zero, suc, ◌+◌, ◌*◌, ◌/◌, ◌%◌, Bool, true, false, not, ◌||◌, List, [], ◌∷◌, ◌++◌, ltb, leb,
  ◌==◌, if◌then◌else◌, length, get_or, take, drop, LinuxError, LinuxResult, ok, err, einval,
  eafnosupport, ◌>>=◌,
}

abbrev pub af_inet : ℕ
af_inet = 2

abbrev pub af_inet6 : ℕ
af_inet6 = 10

-- `size_of::<sockaddr>()`, of `sockaddr_in`, of `sockaddr_in6` and of the family field.
abbrev pub sockaddr_size : ℕ
sockaddr_size = 128

abbrev pub sockaddr_in_size : ℕ
sockaddr_in_size = 16

abbrev pub sockaddr_in6_size : ℕ
sockaddr_in6_size = 28

abbrev pub sa_family_size : ℕ
sa_family_size = 2

abbrev pub Bytes : Type 0
Bytes = List ℕ

pub record SocketAddrV4 : Type 0 where
  pub ip : Bytes
  pub port : ℕ

pub record SocketAddrV6 : Type 0 where
  pub ip : Bytes
  pub port : ℕ
  pub flowinfo : ℕ
  pub scope_id : ℕ

pub data SocketAddr : Type 0 where
  v4 : SocketAddrV4 → SocketAddr
  v6 : SocketAddrV6 → SocketAddr

-- Words in memory, in the machine's order and in that of the network.
abbrev pub get_u16 : Bytes → ℕ → ℕ
get_u16 m i = get_or m i 0 + 256 * get_or m (i + 1) 0

abbrev pub get_be16 : Bytes → ℕ → ℕ
get_be16 m i = 256 * get_or m i 0 + get_or m (i + 1) 0

abbrev pub get_u32 : Bytes → ℕ → ℕ
get_u32 m i = get_u16 m i + 65536 * get_u16 m (i + 2)

abbrev pub get_be32 : Bytes → ℕ → ℕ
get_be32 m i = 65536 * get_be16 m i + get_be16 m (i + 2)

abbrev pub u16_bytes : ℕ → Bytes
u16_bytes n = (n % 256) ∷ (n / 256 % 256) ∷ []

abbrev pub be16_bytes : ℕ → Bytes
be16_bytes n = (n / 256 % 256) ∷ (n % 256) ∷ []

abbrev pub u32_bytes : ℕ → Bytes
u32_bytes n = u16_bytes (n % 65536) ++ u16_bytes (n / 65536)

abbrev pub be32_bytes : ℕ → Bytes
be32_bytes n = be16_bytes (n / 65536) ++ be16_bytes (n % 65536)

-- `count` bytes from an offset.
abbrev pub slice : ℕ → ℕ → Bytes → Bytes
slice from zero m = []
slice from (suc count) m = get_or m from 0 ∷ slice (from + 1) count m

-- `copy_nonoverlapping` of `bytes` to the start of the memory.
abbrev pub overwrite : Bytes → Bytes → Bytes
overwrite bytes m = bytes ++ drop (length bytes) m

-- `copy_sockaddr_from_user`: `uninit` is what the storage on the stack held before. `addr` is the
-- memory of the user, or the error of `get_as_ref`.
unfoldable pub copy_sockaddr_from_user : Bytes → LinuxResult Bytes → ℕ → LinuxResult Bytes
copy_sockaddr_from_user uninit addr addrlen = do
  user ← addr
  ok (overwrite (take addrlen user) uninit)

-- `SocketAddrV4::read_from_user`
unfoldable pub read_v4 : Bytes → LinuxResult Bytes → ℕ → LinuxResult SocketAddrV4
unfolding copy_sockaddr_from_user
read_v4 uninit addr addrlen = if ltb addrlen sockaddr_in_size then err einval else (do
  storage ← copy_sockaddr_from_user uninit addr addrlen
  if not (get_u16 storage 0 == af_inet)
      then err eafnosupport
      else ok (record { ip = slice 4 4 storage; port = get_be16 storage 2 }))

-- `SocketAddrV6::read_from_user`
unfoldable pub read_v6 : Bytes → LinuxResult Bytes → ℕ → LinuxResult SocketAddrV6
unfolding copy_sockaddr_from_user
read_v6 uninit addr addrlen = if ltb addrlen sockaddr_in6_size then err einval else (do
  storage ← copy_sockaddr_from_user uninit addr addrlen
  if not (get_u16 storage 0 == af_inet6)
      then err eafnosupport
      else ok (record {
        ip = slice 8 16 storage;
        port = get_be16 storage 2;
        flowinfo = get_be32 storage 4;
        scope_id = get_u32 storage 24;
      }))

-- `SocketAddr::read_from_user`
unfoldable pub read_from_user : Bytes → LinuxResult Bytes → ℕ → LinuxResult SocketAddr
read_from_user uninit addr addrlen =
    if ltb addrlen sa_family_size || ltb sockaddr_size addrlen then err einval else (do
      user ← addr
      let family = get_u16 user 0
      if family == af_inet
          then (do a ← read_v4 uninit addr addrlen; ok (v4 a))
          else if family == af_inet6
          then (do a ← read_v6 uninit addr addrlen; ok (v6 a))
          else err eafnosupport)

unfoldable pub bytes_v4 : SocketAddrV4 → Bytes
bytes_v4 a =
    u16_bytes af_inet ++ (be16_bytes a.port ++ (a.ip ++ 0 ∷ 0 ∷ 0 ∷ 0 ∷ 0 ∷ 0 ∷ 0 ∷ 0 ∷ []))

unfoldable pub bytes_v6 : SocketAddrV6 → Bytes
bytes_v6 a =
    u16_bytes af_inet6
    ++ (be16_bytes a.port ++ (be32_bytes a.flowinfo ++ (a.ip ++ u32_bytes a.scope_id)))

-- `addr_len`
unfoldable pub addr_len : SocketAddr → ℕ
addr_len (v4 a) = sockaddr_in_size
addr_len (v6 a) = sockaddr_in6_size

-- `family`
unfoldable pub family : SocketAddr → ℕ
family (v4 a) = af_inet
family (v6 a) = af_inet6

-- `write_to_user`: the length, and the memory of the user afterwards. `addr` is that memory before,
-- or the error of `get_as_mut`.
unfoldable pub write_to_user : SocketAddr → Bool → LinuxResult Bytes → LinuxResult (ℕ × Bytes)
unfolding bytes_v4 bytes_v6
write_to_user a is_null (err e) = if is_null then err einval else err e
write_to_user (v4 a) is_null (ok user) =
    if is_null then err einval else ok (sockaddr_in_size, overwrite (bytes_v4 a) user)
write_to_user (v6 a) is_null (ok user) =
    if is_null then err einval else ok (sockaddr_in6_size, overwrite (bytes_v6 a) user)
