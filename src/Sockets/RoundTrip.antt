-- ===== src/Sockets/RoundTrip.antt =====
-- An address that is written to user memory is read back.
use freeos.Prelude.{
  ℕ, ◌+◌, ◌<◌, ◌≡◌, refl, ap, ap₂, ◌∙◌, false, List, [], ◌∷◌, ◌++◌, arith, take, drop, get_or,
  length, length-append, take-append_left, take_all, suc, zero,
}
use freeos.Prelude.Errors.{ok}
use freeos.Sockets.{
  SocketAddr, v4, v6, size_in, size_in6, le32, addr_len, encode, read_from_user, write_to_user,
  parse_v4, parse_v6, read_be16, read_be32, read_le32,
}

-- The ranges of the types.
abbrev pub IsSocketAddr : SocketAddr → Type 0
IsSocketAddr (v4 ip port) = (length ip ≡ 4) × (port < 65536)
IsSocketAddr (v6 ip port flowinfo scope_id) =
    (length ip ≡ 16) × (port < 65536) × (flowinfo < 4294967296) × (scope_id < 4294967296)

first : (n : ℕ) (xs ys : List ℕ) → length xs ≡ n → take n (xs ++ ys) ≡ xs
first n xs ys e = take-append_left n xs ys (omega (arith, e)) ∙ take_all n xs (omega (arith, e))

length-encode : (a : SocketAddr) → IsSocketAddr a → length (encode a) ≡ addr_len a
length-encode (v4 ip port) h =
    omega (arith, h.0, length-append ip (0 ∷ 0 ∷ 0 ∷ 0 ∷ 0 ∷ 0 ∷ 0 ∷ 0 ∷ []))
length-encode (v6 ip port flowinfo scope_id) h =
    omega (arith, h.0, length-append ip (le32 scope_id))

-- The bytes behind an address of 16 bytes.
behind : (n i : ℕ) (xs ys : List ℕ) → length xs ≡ n → get_or (xs ++ ys) (n + i) 0 ≡ get_or ys i 0
behind zero i [] ys e = ap (λ k. get_or ys k 0) (omega arith)
behind zero i (x ∷ xs) ys e = absurd (omega arith)
behind (suc n) i [] ys e = absurd (omega arith)
behind (suc n) i (x ∷ xs) ys e =
    let p : suc n + i ≡ suc (n + i) = omega arith in
    ap (λ k. get_or (x ∷ (xs ++ ys)) k 0) p ∙ behind n i xs ys (omega (arith, e))

parse_v4-encode :
    (ip : List ℕ) (port : ℕ)
    → IsSocketAddr (v4 ip port)
    → parse_v4 (encode (v4 ip port)) ≡ ok (v4 ip port)
parse_v4-encode ip port h =
    ap₂ (λ i p. ok (v4 i p)) (first 4 ip (0 ∷ 0 ∷ 0 ∷ 0 ∷ 0 ∷ 0 ∷ 0 ∷ 0 ∷ []) h.0)
      (omega (arith, h.1))

parse_v6-encode :
    (ip : List ℕ) (port flowinfo scope_id : ℕ)
    → IsSocketAddr (v6 ip port flowinfo scope_id)
    → parse_v6 (encode (v6 ip port flowinfo scope_id)) ≡ ok (v6 ip port flowinfo scope_id)
parse_v6-encode ip port flowinfo scope_id h =
    let s = le32 scope_id in
    let port_is : read_be16 2 (encode (v6 ip port flowinfo scope_id)) ≡ port = omega (arith, h.1) in
    let flow_is : read_be32 4 (encode (v6 ip port flowinfo scope_id)) ≡ flowinfo =
      omega (arith, h.2) in
    let scope_is : read_le32 24 (encode (v6 ip port flowinfo scope_id)) ≡ scope_id = omega (
      arith,
      h.3,
      behind 16 0 ip s h.0,
      behind 16 1 ip s h.0,
      behind 16 2 ip s h.0,
      behind 16 3 ip s h.0,
    ) in
    rw (port_is, flow_is, scope_is) (ap (λ i. ok (v6 i port flowinfo scope_id)) (first 16 ip s h.0))

skipped : (n : ℕ) (xs ys : List ℕ) → length xs ≡ n → drop n (xs ++ ys) ≡ ys
skipped zero [] ys e = refl
skipped zero (x ∷ xs) ys e = absurd (omega arith)
skipped (suc n) [] ys e = absurd (omega arith)
skipped (suc n) (x ∷ xs) ys e = skipped n xs ys (omega (arith, e))

-- An address that is written to a place that is not null is read back from there with the length that
-- the write gives; the bytes behind it stay.
pub read_from_user-write_to_user :
    (a : SocketAddr) (m : List ℕ)
    → IsSocketAddr a
    → (m' : List ℕ) × (write_to_user a false (ok m) ≡ ok (addr_len a, m'))
      × (read_from_user (ok m') (addr_len a) ≡ ok a)
      × (drop (addr_len a) m' ≡ drop (addr_len a) m)
unfolding read_from_user write_to_user
read_from_user-write_to_user (v4 ip port) m h =
    let a = v4 ip port in
    let rest = drop size_in m in
    (
      encode a ++ rest,
      refl,
      ap parse_v4 (first size_in (encode a) rest (length-encode a h)) ∙ parse_v4-encode ip port h,
      skipped size_in (encode a) rest (length-encode a h),
    )
read_from_user-write_to_user (v6 ip port flowinfo scope_id) m h =
    let a = v6 ip port flowinfo scope_id in
    let rest = drop size_in6 m in
    (
      encode a ++ rest,
      refl,
      ap parse_v6 (first size_in6 (encode a) rest (length-encode a h))
          ∙ parse_v6-encode ip port flowinfo scope_id h,
      skipped size_in6 (encode a) rest (length-encode a h),
    )
