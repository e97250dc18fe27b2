-- ===== src/Rns/LinkState/Traffic.antt =====
-- What a manager does with the data that arrives for a link.
use reticulum_forwarding_ser.Base.{ℕ, ◌≡◌, ◌≢◌, refl, false, [], some, err}
use reticulum_forwarding_ser.Base.Bytes.{Bytes}
use reticulum_forwarding_ser.Rns.Crypto.{Crypto}
use reticulum_forwarding_ser.Rns.Packet.{Packet}
use reticulum_forwarding_ser.Rns.LinkState.Links.{
  Link, LinkState, pending, closed, active, not_active, in_active_state,
}
use reticulum_forwarding_ser.Rns.LinkState.{LinkManager, get, handle_link_data}

inactive : (t : LinkState) → t ≢ active → in_active_state t ≡ false
inactive pending off = refl
inactive active off = absurd (off refl)
inactive closed off = refl

module _ {S R : Type 0} (c : Crypto) where
  -- Data for a link that is not active is refused, whatever it carries, and changes nothing.
  pub handle_link_data_refuses :
      (lm : LinkManager S R) (p : Packet) (l : Link) (now : ℕ)
      → get p.dest_hash lm ≡ some l
      → l.state ≢ active
      → handle_link_data c now (some p) lm ≡ (err (not_active, some l), [], lm)
  unfolding handle_link_data get
  handle_link_data_refuses lm p l now found off =
      let state : in_active_state l.state ≡ false = inactive l.state off in
      rw (handle_link_data, get, found, state) refl
