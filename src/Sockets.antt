-- ===== src/Sockets.antt =====
-- api/src/socket.rs: socket addresses in user memory. The memory behind a pointer is the list of the
-- bytes of a `sockaddr` (a little-endian machine); a pointer is whether it is null and the result of
-- its access check.
pub mod RoundTrip
mod Tests
use freeos.Prelude.{
  ℕ, ◌+◌, ◌*◌, ◌/◌, ◌%◌, Bool, true, false, ◌||◌, List, [], ◌∷◌, ◌++◌, ◌==◌, if◌then◌else◌, ltb,
  take, drop, get_or, not,
}
use freeos.Prelude.Errors.{LinuxResult, ok, err, einval, eafnosupport}

-- `SocketAddrV4` and `SocketAddrV6`: the octets of the address, the port, and for the latter
-- `flowinfo` and `scope_id`.
pub data SocketAddr : Type 0 where
  v4 : List ℕ → ℕ → SocketAddr
  v6 : List ℕ → ℕ → ℕ → ℕ → SocketAddr

abbrev af_inet : ℕ
af_inet = 2

abbrev af_inet6 : ℕ
af_inet6 = 10

-- The sizes of `sockaddr_in`, `sockaddr_in6` and `sockaddr`.
abbrev pub size_in : ℕ
size_in = 16

abbrev pub size_in6 : ℕ
size_in6 = 28

abbrev size_sockaddr : ℕ
size_sockaddr = 128

-- `to_be` and `from_be`, as bytes in memory; a field that is kept as it is, is little-endian.
abbrev be16 : ℕ → List ℕ
be16 n = (n / 256) ∷ (n % 256) ∷ []

abbrev be32 : ℕ → List ℕ
be32 n = (n / 16777216) ∷ (n / 65536 % 256) ∷ (n / 256 % 256) ∷ (n % 256) ∷ []

abbrev pub le32 : ℕ → List ℕ
le32 n = (n % 256) ∷ (n / 256 % 256) ∷ (n / 65536 % 256) ∷ (n / 16777216) ∷ []

abbrev byte : ℕ → List ℕ → ℕ
byte i m = get_or m i 0

abbrev pub read_be16 : ℕ → List ℕ → ℕ
read_be16 i m = byte i m * 256 + byte (i + 1) m

abbrev read_le16 : ℕ → List ℕ → ℕ
read_le16 i m = byte (i + 1) m * 256 + byte i m

abbrev pub read_be32 : ℕ → List ℕ → ℕ
read_be32 i m = byte i m * 16777216 + byte (i + 1) m * 65536 + byte (i + 2) m * 256 + byte (i + 3) m

abbrev pub read_le32 : ℕ → List ℕ → ℕ
read_le32 i m = byte (i + 3) m * 16777216 + byte (i + 2) m * 65536 + byte (i + 1) m * 256 + byte i m

abbrev family : SocketAddr → ℕ
family (v4 ip port) = af_inet
family (v6 ip port flowinfo scope_id) = af_inet6

abbrev pub addr_len : SocketAddr → ℕ
addr_len (v4 ip port) = size_in
addr_len (v6 ip port flowinfo scope_id) = size_in6

-- `copy_sockaddr_from_user`: the first `addrlen` bytes, the others are not initialised.
abbrev copy_sockaddr : ℕ → List ℕ → List ℕ
copy_sockaddr addrlen m = take addrlen m

abbrev pub parse_v4 : List ℕ → LinuxResult SocketAddr
parse_v4 s =
    if not (read_le16 0 s == af_inet)
    then err eafnosupport
    else ok (v4 (take 4 (drop 4 s)) (read_be16 2 s))

abbrev pub parse_v6 : List ℕ → LinuxResult SocketAddr
parse_v6 s =
    if not (read_le16 0 s == af_inet6)
    then err eafnosupport
    else ok (v6 (take 16 (drop 8 s)) (read_be16 2 s) (read_be32 4 s) (read_le32 24 s))

abbrev read_v4 : ℕ → List ℕ → LinuxResult SocketAddr
read_v4 addrlen m = if ltb addrlen size_in then err einval else parse_v4 (copy_sockaddr addrlen m)

abbrev read_v6 : ℕ → List ℕ → LinuxResult SocketAddr
read_v6 addrlen m = if ltb addrlen size_in6 then err einval else parse_v6 (copy_sockaddr addrlen m)

abbrev read_family : ℕ → LinuxResult (List ℕ) → LinuxResult SocketAddr
read_family addrlen (err e) = err e
read_family addrlen (ok m) =
    if read_le16 0 m == af_inet
    then read_v4 addrlen m
    else if read_le16 0 m == af_inet6
    then read_v6 addrlen m
    else err eafnosupport

pub read_from_user : LinuxResult (List ℕ) → ℕ → LinuxResult SocketAddr
read_from_user access addrlen =
    if ltb addrlen 2 || ltb size_sockaddr addrlen then err einval else read_family addrlen access

-- The bytes of `sockaddr_in` and `sockaddr_in6`.
abbrev pub encode : SocketAddr → List ℕ
encode (v4 ip port) = (af_inet ∷ 0 ∷ be16 port) ++ (ip ++ (0 ∷ 0 ∷ 0 ∷ 0 ∷ 0 ∷ 0 ∷ 0 ∷ 0 ∷ []))
encode (v6 ip port flowinfo scope_id) =
    (af_inet6 ∷ 0 ∷ (be16 port ++ be32 flowinfo)) ++ (ip ++ le32 scope_id)

abbrev written : SocketAddr → LinuxResult (List ℕ) → LinuxResult (ℕ × List ℕ)
written a (err e) = err e
written a (ok m) = ok (addr_len a, encode a ++ drop (addr_len a) m)

-- The length, and the memory after the write.
pub write_to_user : SocketAddr → Bool → LinuxResult (List ℕ) → LinuxResult (ℕ × List ℕ)
write_to_user a is_null access = if is_null then err einval else written a access
