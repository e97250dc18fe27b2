-- ===== src/Service/Sanitize.antt =====
-- internal/service/sanitize.go: control bytes are taken out of forwarded text.
use reticulum_forwarding_ser.Base.{
  ℕ, suc, ◌≡◌, refl, ap, Bool, false, not, ◌&&◌, ◌||◌, [], ◌∷◌, ◌==◌, ltb, if◌then◌else◌, length,
  Bool-cases, inl, inr, arith,
}
use reticulum_forwarding_ser.Base.Bytes.{Bytes}

-- A C0 control other than TAB, LF and CR, or DEL.
abbrev pub is_control : ℕ → Bool
is_control c = (ltb c 0x20 && not (c == 9) && not (c == 10) && not (c == 13)) || c == 0x7f

pub needs_sanitize : Bytes → Bool
needs_sanitize [] = false
needs_sanitize (c ∷ s) = is_control c || needs_sanitize s

-- The loop, which writes '?' for a control byte.
pub sanitize_loop : Bytes → Bytes
sanitize_loop [] = []
sanitize_loop (c ∷ s) = (if is_control c then 63 else c) ∷ sanitize_loop s

pub sanitize_forward : Bytes → Bytes
sanitize_forward s = if not (needs_sanitize s) then s else sanitize_loop s

loop-clean : (s : Bytes) → needs_sanitize (sanitize_loop s) ≡ false
unfolding needs_sanitize sanitize_loop
loop-clean [] = refl
loop-clean (c ∷ s) = ground (arith, loop-clean s)

length-loop : (s : Bytes) → length (sanitize_loop s) ≡ length s
unfolding sanitize_loop
length-loop [] = refl
length-loop (c ∷ s) = ap suc (length-loop s)

-- Text keeps its length when it is sanitized, holds no control byte but TAB, LF and CR after that,
-- and is left as it is by a second pass; text without such bytes is left as it is at once.
pub sanitize_forward-clean :
    (s : Bytes)
    → (length (sanitize_forward s) ≡ length s)
      × (needs_sanitize (sanitize_forward s) ≡ false)
      × (sanitize_forward (sanitize_forward s) ≡ sanitize_forward s)
      × (needs_sanitize s ≡ false → sanitize_forward s ≡ s)
unfolding sanitize_forward
sanitize_forward-clean s = elim (Bool-cases (needs_sanitize s)) [
  | inr e ↦ rw (sanitize_forward, e, e) (refl, refl, refl, λ h. refl)
  | inl e ↦ (
    rw (sanitize_forward, e) (length-loop s),
    rw (sanitize_forward, e) (loop-clean s),
    rw (sanitize_forward, e, loop-clean s) refl,
    λ h. absurd (ground (arith, e, h)),
  )
]
