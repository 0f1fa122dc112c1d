-- ===== src/Udp/Address.antt =====
-- Addresses in the form of the socket library, and as text: `to_sockaddr`, `from_sockaddr` and
-- `rv_parse_ip_port` of src/rv_udp_win32.c.
use residual_engine_audio.Base.{
  ℕ, ◌≤◌, ◌<◌, ◌^◌, ◌≡◌, ◌⊎◌, refl, ap, sym, ◌∙◌, arith, true, false, Option, some, none, List,
  ◌++◌, take, drop, replicate, length, ◌==◌, ==_refl, ==_ne, if◌then◌else◌, Result, ok, err, inl,
  inr, take-append, length-take,
}
use residual_engine_audio.Relay.{SockAddr, addr_equal, ipv4}
use residual_engine_audio.Relay.Sessions.{same_bytes_refl}
use residual_engine_audio.Udp.{Storage, Winsock, Families}

abbrev pub ipv6 : ℕ
ipv6 = 6

-- `memcpy(dst, src, n)`, of the first bytes of an array.
abbrev pub copy_bytes : ℕ → List ℕ → List ℕ → List ℕ
copy_bytes n dst src = take n src ++ drop n dst

module _ {Net : Type 0} (w : Winsock Net) where
  -- The structure is cleared first; `sin_addr` is 4 bytes and `sin6_addr` 16.
  unfoldable pub to_sockaddr : SockAddr → Option Storage
  to_sockaddr a =
      if a.ver == ipv4
      then (some (record {
        family = w.af_inet;
        port = w.htons a.port;
        addr = copy_bytes 4 (replicate 4 0) a.ip;
      }))
      else if a.ver == ipv6
      then (some (record {
        family = w.af_inet6;
        port = w.htons a.port;
        addr = copy_bytes 16 (replicate 16 0) a.ip;
      }))
      else none

  -- What is written to `*out`; with another family, it is as it was.
  unfoldable pub from_sockaddr : Storage → SockAddr → SockAddr
  from_sockaddr s out =
      if s.family == w.af_inet
      then (record { ver = ipv4; port = w.ntohs s.port; ip = copy_bytes 4 out.ip s.addr })
      else if s.family == w.af_inet6
      then (record { ver = ipv6; port = w.ntohs s.port; ip = copy_bytes 16 out.ip s.addr })
      else out

  -- An IPv6 literal is tried first. A null host is `none`.
  unfoldable pub parse_ip_port : Option (List ℕ) → ℕ → SockAddr → Result SockAddr
  parse_ip_port none port out = err 1
  parse_ip_port (some host) port out = elim (w.inet_pton w.af_inet6 host) [
    | some a6 ↦ ok (record { ver = ipv6; port = port; ip = copy_bytes 16 out.ip a6 })
    | none ↦ elim (w.inet_pton w.af_inet host) [
      | some a4 ↦ ok (record { ver = ipv4; port = port; ip = copy_bytes 4 out.ip a4 })
      | none ↦ err 2
    ]
  ]

-- The bytes that two copies leave are those of the source.
take-copy_bytes :
    (n : ℕ) (xs out zero_bytes : List ℕ)
    → n ≤ length xs
    → take n (copy_bytes n out (copy_bytes n zero_bytes xs)) ≡ take n xs
take-copy_bytes n xs out zero_bytes enough =
    let once : length (take n xs) ≡ n = omega (arith, length-take n xs) in
    let kept = take-append n (take n xs) (drop n zero_bytes) once in
    take-append n (take n (copy_bytes n zero_bytes xs)) (drop n out) (ap length kept ∙ once) ∙ kept

-- Two addresses of the same version and port are equal if the bytes compared are.
addr_equal-v4 :
    (a b : SockAddr)
    → a.ver ≡ 4
    → b.ver ≡ 4
    → a.port ≡ b.port
    → take 4 a.ip ≡ take 4 b.ip
    → addr_equal a b ≡ true
addr_equal-v4 a b v v' p e = rw (v, v', p, ==_refl b.port, e) (same_bytes_refl (take 4 b.ip))

addr_equal-v6 :
    (a b : SockAddr)
    → a.ver ≡ 6
    → b.ver ≡ 6
    → a.port ≡ b.port
    → take 16 a.ip ≡ take 16 b.ip
    → addr_equal a b ≡ true
addr_equal-v6 a b v v' p e = rw (v, v', p, ==_refl b.port, e) (same_bytes_refl (take 16 b.ip))

module _ {Net : Type 0} (w : Winsock Net) (f : Families w) where
  -- An address put into the library's form and read back is the same address as before, whatever
  -- was in the place that it is read into.
  pub from_to_sockaddr :
      (a out : SockAddr)
      → (a.ver ≡ ipv4) ⊎ (a.ver ≡ ipv6)
      → a.port < 2 ^ 16
      → length a.ip ≡ 16
      → (ss : Storage) × (to_sockaddr w a ≡ some ss)
        × (addr_equal (from_sockaddr w ss out) a ≡ true)
  unfolding to_sockaddr from_sockaddr
  from_to_sockaddr a out (inl v) p n =
      let ss : Storage = record {
        family = w.af_inet;
        port = w.htons a.port;
        addr = copy_bytes 4 (replicate 4 0) a.ip;
      } in
      let b : SockAddr = record {
        ver = ipv4;
        port = w.ntohs ss.port;
        ip = copy_bytes 4 out.ip ss.addr;
      } in
      let same =
        addr_equal-v4 b a refl v (f.ntohs-htons a.port p)
          (take-copy_bytes 4 a.ip out.ip (replicate 4 0) (omega arith)) in
      (ss, rw v refl, rw (==_refl w.af_inet) same)
  from_to_sockaddr a out (inr v) p n =
      let ss : Storage = record {
        family = w.af_inet6;
        port = w.htons a.port;
        addr = copy_bytes 16 (replicate 16 0) a.ip;
      } in
      let b : SockAddr = record {
        ver = ipv6;
        port = w.ntohs ss.port;
        ip = copy_bytes 16 out.ip ss.addr;
      } in
      let same =
        addr_equal-v6 b a refl v (f.ntohs-htons a.port p)
          (take-copy_bytes 16 a.ip out.ip (replicate 16 0) (omega arith)) in
      let other : (w.af_inet6 == w.af_inet) ≡ false =
        ==_ne w.af_inet6 w.af_inet (λ e. f.apart (sym e)) in
      (ss, rw v refl, rw (other, ==_refl w.af_inet6) same)
