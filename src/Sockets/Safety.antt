-- ===== src/Sockets/Safety.antt =====
-- Reading an address uses no byte that the user did not give.
use vegar.Prelude.{
  ℕ, ◌≤◌, ◌<◌, ◌≡◌, refl, ap, inl, inr, not, arith, ltb, ◌==◌, if◌then◌else◌, Bool-cases, length,
  get_or, take, LinuxResult, ok, err, einval, eafnosupport,
}
use vegar.Sockets.{
  Bytes, SocketAddrV4, SocketAddrV6, af_inet, af_inet6, sockaddr_size, get_u16, get_be16, get_be32,
  get_u32, slice, overwrite, read_v4, read_v6, read_from_user,
}
use vegar.Sockets.Bytes.{get_or-storage, slice-eq}

-- What `read_v4` makes of the storage.
abbrev pub parse_v4 : Bytes → LinuxResult SocketAddrV4
parse_v4 s =
    if not (get_u16 s 0 == af_inet)
    then err eafnosupport
    else ok (record { ip = slice 4 4 s; port = get_be16 s 2 })

abbrev pub parse_v6 : Bytes → LinuxResult SocketAddrV6
parse_v6 s =
    if not (get_u16 s 0 == af_inet6)
    then err eafnosupport
    else ok (record {
      ip = slice 8 16 s;
      port = get_be16 s 2;
      flowinfo = get_be32 s 4;
      scope_id = get_u32 s 24;
    })

-- The first `n` bytes of two memories are the same.
abbrev pub Agree : ℕ → Bytes → Bytes → Type 0
Agree n s t = (i : ℕ) → i < n → get_or s i 0 ≡ get_or t i 0

parse_v4-eq : (s t : Bytes) → Agree 16 s t → parse_v4 s ≡ parse_v4 t
parse_v4-eq s t h =
    rw (h 0 (omega arith), h 1 (omega arith), h 2 (omega arith), h 3 (omega arith))
      (ap
        (λ (x : Bytes).
          if not (get_u16 t 0 == af_inet)
          then err eafnosupport
          else ok (record { ip = x; port = get_be16 t 2 }))
        (slice-eq 4 4 s t (λ i l. h i (omega arith))))

parse_v6-eq : (s t : Bytes) → Agree 28 s t → parse_v6 s ≡ parse_v6 t
parse_v6-eq s t h = cc (
  slice-eq 8 16 s t (λ i l. h i (omega arith)),
  h 0 (omega arith),
  h 1 (omega arith),
  h 2 (omega arith),
  h 3 (omega arith),
  h 4 (omega arith),
  h 5 (omega arith),
  h 6 (omega arith),
  h 7 (omega arith),
  h 24 (omega arith),
  h 25 (omega arith),
  h 26 (omega arith),
  h 27 (omega arith),
)

pub read_v4-parse :
    (uninit user : Bytes) (n : ℕ)
    → n ≤ length user
    → read_v4 uninit (ok user) n ≡ (if ltb n 16 then err einval else parse_v4 user)
unfolding read_v4
read_v4-parse uninit user n h = elim (Bool-cases (ltb n 16)) [
  | inl short ↦ rw short refl
  | inr long ↦ rw long (
      parse_v4-eq (overwrite (take n user) uninit) user
        (λ i l. get_or-storage uninit user n i h (ground arith)))
]

pub read_v6-parse :
    (uninit user : Bytes) (n : ℕ)
    → n ≤ length user
    → read_v6 uninit (ok user) n ≡ (if ltb n 28 then err einval else parse_v6 user)
unfolding read_v6
read_v6-parse uninit user n h = elim (Bool-cases (ltb n 28)) [
  | inl short ↦ rw short refl
  | inr long ↦ rw long (
      parse_v6-eq (overwrite (take n user) uninit) user
        (λ i l. get_or-storage uninit user n i h (ground arith)))
]

-- Whatever the length that the user gives, what `read_from_user` finds in a valid `sockaddr` does
-- not depend on what the storage on the kernel's stack held before: a short address is refused, and
-- a longer one is parsed from bytes of the user only.
pub read_from_user-uninit :
    (uninit uninit' user : Bytes) (addrlen : ℕ)
    → length user ≡ sockaddr_size
    → read_from_user uninit (ok user) addrlen ≡ read_from_user uninit' (ok user) addrlen
unfolding read_from_user
read_from_user-uninit uninit uninit' user addrlen h =
    elim (Bool-cases (ltb sockaddr_size addrlen)) [
      | inl long ↦ ground (arith, long)
      | inr fits ↦
          let small : addrlen ≤ length user = ground arith in
          rw (
            read_v4-parse uninit user addrlen small,
            read_v4-parse uninit' user addrlen small,
            read_v6-parse uninit user addrlen small,
            read_v6-parse uninit' user addrlen small,
            read_from_user,
          )
    ]
