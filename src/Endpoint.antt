-- ===== src/Endpoint.antt =====
-- Network endpoints: NetEp_t of src/liblobaro_coap.h and EpAreEqual of
-- src/interface/network/net_Endpoint.c.
pub mod Equal
use lobaro_coap.Common.{
  ℕ, zero, suc, Bool, true, false, ◌&&◌, not, List, [], ◌∷◌, if◌then◌else◌, ◌==◌,
}

-- NetInterfaceType_t.
pub data InterfaceType : Type 0 where
  ep_none ipv6 ipv4 btle uart : InterfaceType

abbrev pub same_type : InterfaceType → InterfaceType → Bool
same_type ep_none ep_none = true
same_type ipv6 ipv6 = true
same_type ipv4 ipv4 = true
same_type btle btle = true
same_type uart uart = true
same_type _ _ = false

-- NetEp_t: the union of the addresses is its sixteen bytes.
pub record Endpoint : Type 0 where
  pub net_type : InterfaceType
  pub net_addr : List ℕ
  pub net_port : ℕ

-- The addresses agree in their first `n` bytes.
unfoldable pub same_bytes : ℕ → List ℕ → List ℕ → Bool
same_bytes zero xs ys = true
same_bytes (suc n) [] [] = true
same_bytes (suc n) [] (y ∷ ys) = false
same_bytes (suc n) (x ∷ xs) [] = false
same_bytes (suc n) (x ∷ xs) (y ∷ ys) = (x == y) && same_bytes n xs ys

-- How many bytes of an address EpAreEqual compares.
abbrev pub addr_bytes : InterfaceType → ℕ
addr_bytes ipv4 = 4
addr_bytes _ = 16

-- EpAreEqual of two endpoints.
unfoldable pub ep_are_equal : Endpoint → Endpoint → Bool
ep_are_equal a b =
    if not (same_type a.net_type b.net_type)
    then false
    else (if not (a.net_port == b.net_port)
        then false
        else same_bytes (addr_bytes a.net_type) a.net_addr b.net_addr)
