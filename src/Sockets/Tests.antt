-- ===== src/Sockets/Tests.antt =====
-- 127.0.0.1 at port 8080.
use freeos.Prelude.{ℕ, ◌≡◌, refl, false, List, [], ◌∷◌, arith, drop, replicate}
use freeos.Prelude.Errors.{ok}
use freeos.Sockets.{SocketAddr, v4, addr_len, read_from_user, write_to_user}
use freeos.Sockets.RoundTrip.{read_from_user-write_to_user}

abbrev local_host : SocketAddr
local_host = v4 (127 ∷ 0 ∷ 0 ∷ 1 ∷ []) 8080

abbrev memory : List ℕ
memory = replicate 128 255

read_from_user-write_to_user_example :
    (m' : List ℕ) × (write_to_user local_host false (ok memory) ≡ ok (addr_len local_host, m'))
    × (read_from_user (ok m') (addr_len local_host) ≡ ok local_host)
    × (drop (addr_len local_host) m' ≡ drop (addr_len local_host) memory)
read_from_user-write_to_user_example =
    read_from_user-write_to_user local_host memory (refl, omega arith)
