-- ===== src/Rns/Dispatch/Parts.antt =====
-- Which receivers get a part, which names no resource.
use reticulum_forwarding_ser.Base.{◌≡◌, List, [], ◌∷◌, if◌then◌else◌, length, All}
use reticulum_forwarding_ser.Base.Bytes.{Bytes, IsByte, ◌=ᵇ◌}
use reticulum_forwarding_ser.Rns.Packet.{Packet}
use reticulum_forwarding_ser.Rns.LinkState.Transfers.{resource_key}

module _ {R : Type 0} where
  -- The index of the receivers by link id and resource hash.
  abbrev pub keyed : List (Bytes × Bytes × R) → List (Bytes × R)
  keyed [] = []
  keyed ((a, h, rr) ∷ xs) = (resource_key a h, rr) ∷ keyed xs

  -- The receivers of a link.
  abbrev pub of_link : Bytes → List (Bytes × Bytes × R) → List R
  of_link b [] = []
  of_link b ((a, h, rr) ∷ xs) = let rest = of_link b xs in if a =ᵇ b then rr ∷ rest else rest

  abbrev pub AllIds : List (Bytes × Bytes × R) → Type 0
  AllIds xs = All (λ (a, h, rr). (length a ≡ 16) × All IsByte a) xs
