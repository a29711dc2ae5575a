-- ===== src/Sockets/Tests.antt =====
-- Socket addresses at concrete values.
use vegar.Prelude.{ℕ, ◌≡◌, refl, false, [], ◌∷◌, arith, length, replicate, ok, err, einval}
use vegar.Sockets.{Bytes, SocketAddr, v4, addr_len, sockaddr_size, read_from_user, write_to_user}
use vegar.Sockets.RoundTrip.{read-write_to_user}

-- 127.0.0.1:8080
abbrev local : SocketAddr
local = v4 (record { ip = 127 ∷ 0 ∷ 0 ∷ 1 ∷ []; port = 8080 })

abbrev memory : Bytes
memory = replicate 128 255

short_address : read_from_user [] (ok memory) 1 ≡ err einval
unfolding read_from_user
short_address = refl

read-write_to_user_example :
    (len : ℕ) × (user' : Bytes) × (write_to_user local false (ok memory) ≡ ok (len, user'))
    × (len ≡ addr_len local)
    × (length user' ≡ sockaddr_size)
    × (read_from_user [] (ok user') len ≡ ok local)
read-write_to_user_example = read-write_to_user local memory [] (omega arith) refl
