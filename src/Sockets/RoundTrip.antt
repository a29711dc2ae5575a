-- ===== src/Sockets/RoundTrip.antt =====
-- An address that the kernel writes is the address that it reads back.
use vegar.Prelude.{
  ℕ, zero, suc, ◌+◌, ◌-◌, ◌*◌, ◌/◌, ◌%◌, ◌^◌, ◌≤◌, ◌<◌, ◌≡◌, refl, sym, ap, ◌∙◌, false, [], ◌∷◌,
  ◌++◌, arith, append_assoc, length, length-append, get_or, drop, ok,
}
use vegar.Sockets.{
  Bytes, SocketAddrV4, SocketAddrV6, SocketAddr, v4, v6, af_inet, af_inet6, sockaddr_size, get_u16,
  get_be16, get_be32, get_u32, u16_bytes, be16_bytes, u32_bytes, be32_bytes, slice, overwrite,
  read_v4, read_v6, read_from_user, bytes_v4, bytes_v6, write_to_user, addr_len,
}
use vegar.Sockets.Bytes.{get_or-append_right, slice-append}
use vegar.Sockets.Safety.{parse_v4, parse_v6, read_v4-parse, read_v6-parse}

-- The fields are in the range of their types.
abbrev pub InRange : SocketAddr → Type 0
InRange (v4 a) = (length a.ip ≡ 4) × (a.port < 2 ^ 16)
InRange (v6 a) =
    (length a.ip ≡ 16) × (a.port < 2 ^ 16) × (a.flowinfo < 2 ^ 32) × (a.scope_id < 2 ^ 32)

length-drop : (n : ℕ) (xs : Bytes) → length (drop n xs) ≡ length xs - n
length-drop zero xs = omega arith
length-drop (suc n) [] = omega arith
length-drop (suc n) (x ∷ xs) = omega (arith, length-drop n xs)

length-overwrite :
    (bytes m : Bytes) → length bytes ≤ length m → length (overwrite bytes m) ≡ length m
length-overwrite bytes m h =
    omega (arith, length-append bytes (drop (length bytes) m), length-drop (length bytes) m)

length-bytes_v4 : (a : SocketAddrV4) → length a.ip ≡ 4 → length (bytes_v4 a) ≡ 16
unfolding bytes_v4
length-bytes_v4 a h = omega (arith, length-append a.ip (0 ∷ 0 ∷ 0 ∷ 0 ∷ 0 ∷ 0 ∷ 0 ∷ 0 ∷ []))

length-bytes_v6 : (a : SocketAddrV6) → length a.ip ≡ 16 → length (bytes_v6 a) ≡ 28
unfolding bytes_v6
length-bytes_v6 a h = omega (arith, length-append a.ip (u32_bytes a.scope_id))

parse-bytes_v4 :
    (a : SocketAddrV4) (rest : Bytes) → InRange (v4 a) → parse_v4 (bytes_v4 a ++ rest) ≡ ok a
unfolding bytes_v4
parse-bytes_v4 a rest h =
    let zeros : Bytes = 0 ∷ 0 ∷ 0 ∷ 0 ∷ 0 ∷ 0 ∷ 0 ∷ 0 ∷ [] in
    let before : Bytes = u16_bytes af_inet ++ be16_bytes a.port in
    let ip : slice 4 4 (bytes_v4 a ++ rest) ≡ a.ip =
      ap (λ (k : ℕ). slice 4 k (bytes_v4 a ++ rest)) (sym h.0)
      ∙ ap (λ (m : Bytes). slice 4 (length a.ip) (before ++ m)) (append_assoc a.ip zeros rest)
      ∙ slice-append before a.ip (zeros ++ rest) 4 refl in
    let port : 256 * (a.port / 256 % 256) + a.port % 256 ≡ a.port = omega arith in
    λ i. ok (record { ip = ip i; port = port i })

parse-bytes_v6 :
    (a : SocketAddrV6) (rest : Bytes) → InRange (v6 a) → parse_v6 (bytes_v6 a ++ rest) ≡ ok a
unfolding bytes_v6
parse-bytes_v6 a rest h =
    let scope : Bytes = u32_bytes a.scope_id in
    let tail : Bytes = a.ip ++ scope ++ rest in
    let before : Bytes = u16_bytes af_inet6 ++ (be16_bytes a.port ++ be32_bytes a.flowinfo) in
    let ip : slice 8 16 (bytes_v6 a ++ rest) ≡ a.ip =
      ap (λ (k : ℕ). slice 8 k (bytes_v6 a ++ rest)) (sym h.0)
      ∙ ap (λ (m : Bytes). slice 8 (length a.ip) (before ++ m)) (append_assoc a.ip scope rest)
      ∙ slice-append before a.ip (scope ++ rest) 8 refl in
    let port : get_be16 (bytes_v6 a) 2 ≡ a.port = omega arith in
    let flowinfo : get_be32 (bytes_v6 a) 4 ≡ a.flowinfo = omega arith in
    let byte : (j : ℕ) → get_or tail (16 + j) 0 ≡ get_or (scope ++ rest) j 0 = λ j.
      ap (λ (m : Bytes). get_or m (16 + j) 0) (append_assoc a.ip scope rest)
      ∙ get_or-append_right a.ip (scope ++ rest) (16 + j) j (omega arith) in
    let scope_id : get_u32 tail 16 ≡ a.scope_id = omega (arith, byte 0, byte 1, byte 2, byte 3) in
    λ i. ok (record { ip = ip i; port = port i; flowinfo = flowinfo i; scope_id = scope_id i })

-- An address whose fields are in range, written to a valid `sockaddr` of the user, is what
-- `read_from_user` gets there with the length that was returned. The length is `addr_len`, and the
-- memory keeps its size.
pub read-write_to_user :
    (a : SocketAddr) (user uninit : Bytes)
    → InRange a
    → length user ≡ sockaddr_size
    → (len : ℕ) × (user' : Bytes) × (write_to_user a false (ok user) ≡ ok (len, user'))
      × (len ≡ addr_len a)
      × (length user' ≡ sockaddr_size)
      × (read_from_user uninit (ok user') len ≡ ok a)
unfolding write_to_user addr_len
read-write_to_user (v4 a) user uninit r h =
    let size = length-bytes_v4 a r.0 in
    let user' = overwrite (bytes_v4 a) user in
    let fits = length-overwrite (bytes_v4 a) user (omega arith) in
    (
      16,
      user',
      refl,
      refl,
      fits ∙ h,
      read_v4-found uninit user' a (omega arith) refl
          (read_v4-parse uninit user' 16 (omega arith) ∙ parse-bytes_v4 a _ r),
    )
  where
    read_v4-found :
        (u m : Bytes) (b : SocketAddrV4)
        → length m ≡ sockaddr_size
        → get_u16 m 0 ≡ af_inet
        → read_v4 u (ok m) 16 ≡ ok b
        → read_from_user u (ok m) 16 ≡ ok (v4 b)
    read_v4-found u m b l f e = unfold read_from_user in rw (f, e, read_from_user) refl
read-write_to_user (v6 a) user uninit r h =
    let size = length-bytes_v6 a r.0 in
    let user' = overwrite (bytes_v6 a) user in
    let fits = length-overwrite (bytes_v6 a) user (omega arith) in
    (
      28,
      user',
      refl,
      refl,
      fits ∙ h,
      read_v6-found uninit user' a (omega arith) refl
          (read_v6-parse uninit user' 28 (omega arith) ∙ parse-bytes_v6 a _ r),
    )
  where
    read_v6-found :
        (u m : Bytes) (b : SocketAddrV6)
        → length m ≡ sockaddr_size
        → get_u16 m 0 ≡ af_inet6
        → read_v6 u (ok m) 28 ≡ ok b
        → read_from_user u (ok m) 28 ≡ ok (v6 b)
    read_v6-found u m b l f e = unfold read_from_user in rw (f, e, read_from_user) refl
