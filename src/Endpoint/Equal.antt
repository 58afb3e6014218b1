-- ===== src/Endpoint/Equal.antt =====
-- What EpAreEqual compares.
use lobaro_coap.Common.{
  ℕ, zero, suc, ◌≡◌, ◌↔◌, ◌∙◌, refl, sym, ap, true, List, [], ◌∷◌, ◌==◌, ==_iff, arith, take,
  Bool-cases, inl, inr,
}
use lobaro_coap.Endpoint.{
  InterfaceType, ep_none, ipv6, ipv4, btle, uart, same_type, Endpoint, same_bytes, addr_bytes,
  ep_are_equal,
}

same_bytes_iff : (n : ℕ) (xs ys : List ℕ) → (same_bytes n xs ys ≡ true) ↔ (take n xs ≡ take n ys)
unfolding same_bytes
same_bytes_iff zero xs ys = (λ _. refl, λ _. refl)
same_bytes_iff (suc n) [] [] = (λ _. refl, λ _. refl)
same_bytes_iff (suc n) [] (y ∷ ys) = (λ e. absurd (cc e), λ e. absurd (cc e))
same_bytes_iff (suc n) (x ∷ xs) [] = (λ e. absurd (cc e), λ e. absurd (cc e))
same_bytes_iff (suc n) (x ∷ xs) (y ∷ ys) = ground (arith, same_bytes_iff n xs ys)

same_type_iff : (s t : InterfaceType) → (same_type s t ≡ true) ↔ (s ≡ t)
same_type_iff ep_none ep_none = (λ _. refl, λ _. refl)
same_type_iff ep_none ipv6 = (λ e. absurd (cc e), λ e. absurd (cc e))
same_type_iff ep_none ipv4 = (λ e. absurd (cc e), λ e. absurd (cc e))
same_type_iff ep_none btle = (λ e. absurd (cc e), λ e. absurd (cc e))
same_type_iff ep_none uart = (λ e. absurd (cc e), λ e. absurd (cc e))
same_type_iff ipv6 ep_none = (λ e. absurd (cc e), λ e. absurd (cc e))
same_type_iff ipv6 ipv6 = (λ _. refl, λ _. refl)
same_type_iff ipv6 ipv4 = (λ e. absurd (cc e), λ e. absurd (cc e))
same_type_iff ipv6 btle = (λ e. absurd (cc e), λ e. absurd (cc e))
same_type_iff ipv6 uart = (λ e. absurd (cc e), λ e. absurd (cc e))
same_type_iff ipv4 ep_none = (λ e. absurd (cc e), λ e. absurd (cc e))
same_type_iff ipv4 ipv6 = (λ e. absurd (cc e), λ e. absurd (cc e))
same_type_iff ipv4 ipv4 = (λ _. refl, λ _. refl)
same_type_iff ipv4 btle = (λ e. absurd (cc e), λ e. absurd (cc e))
same_type_iff ipv4 uart = (λ e. absurd (cc e), λ e. absurd (cc e))
same_type_iff btle ep_none = (λ e. absurd (cc e), λ e. absurd (cc e))
same_type_iff btle ipv6 = (λ e. absurd (cc e), λ e. absurd (cc e))
same_type_iff btle ipv4 = (λ e. absurd (cc e), λ e. absurd (cc e))
same_type_iff btle btle = (λ _. refl, λ _. refl)
same_type_iff btle uart = (λ e. absurd (cc e), λ e. absurd (cc e))
same_type_iff uart ep_none = (λ e. absurd (cc e), λ e. absurd (cc e))
same_type_iff uart ipv6 = (λ e. absurd (cc e), λ e. absurd (cc e))
same_type_iff uart ipv4 = (λ e. absurd (cc e), λ e. absurd (cc e))
same_type_iff uart btle = (λ e. absurd (cc e), λ e. absurd (cc e))
same_type_iff uart uart = (λ _. refl, λ _. refl)

-- What tells endpoints apart: the kind of network, the port, and the bytes of the address that
-- this kind has.
abbrev pub identity : Endpoint → InterfaceType × ℕ × List ℕ
identity e = (e.net_type, e.net_port, take (addr_bytes e.net_type) e.net_addr)

-- EpAreEqual is true exactly of endpoints with the same kind of network, the same port and the same
-- first four bytes of the address for IPv4, and the same sixteen for the other kinds.
pub ep_are_equal_iff : (a b : Endpoint) → (ep_are_equal a b ≡ true) ↔ (identity a ≡ identity b)
unfolding ep_are_equal
ep_are_equal_iff a b = elim (Bool-cases (same_type a.net_type b.net_type)) [
  | inr differs ↦ rw differs (
    λ e. absurd (cc e),
    λ t. sym differs ∙ (same_type_iff a.net_type b.net_type).1 (ap (λ i. i.0) t),
  )
  | inl same ↦ elim (Bool-cases (a.net_port == b.net_port)) [
    | inr differs ↦
        rw (same, differs)
          (
            λ e. absurd (cc e),
            λ t. sym differs ∙ (==_iff a.net_port b.net_port).1 (ap (λ i. i.1) t),
          )
    | inl port ↦
        let types = (same_type_iff a.net_type b.net_type).0 same in
        let ports = (==_iff a.net_port b.net_port).0 port in
        let bytes = same_bytes_iff (addr_bytes a.net_type) a.net_addr b.net_addr in
        rw (same, port)
          (
            λ e. rw (← types, ← ports, bytes.0 e) refl,
            λ t. bytes.1 (rw (← types) at (ap (λ i. i.2) t)),
          )
  ]
]

-- EpAreEqual does not depend on the order of its arguments.
pub ep_are_equal_comm : (a b : Endpoint) → ep_are_equal a b ≡ ep_are_equal b a
ep_are_equal_comm a b = elim (Bool-cases (ep_are_equal a b)) [
  | inl same ↦ same ∙ sym ((ep_are_equal_iff b a).1 (sym ((ep_are_equal_iff a b).0 same)))
  | inr differs ↦ elim (Bool-cases (ep_are_equal b a)) [
    | inl same ↦ (ep_are_equal_iff a b).1 (sym ((ep_are_equal_iff b a).0 same)) ∙ sym same
    | inr differs' ↦ differs ∙ sym differs'
  ]
]
