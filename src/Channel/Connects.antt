-- ===== src/Channel/Connects.antt =====
-- src/channel.rs: what `Channel::new` leaves behind.
use scanner_button.Prelude.{◌≡◌, refl, List, [], ◌∷◌, inl, inr, Bool-cases}
use scanner_button.Rust.Triples.{Post, returns, fails}
use scanner_button.Channel.Wire.{Channel, Failure, SocketAddr}
use scanner_button.Channel.Sockets.{Effect, Kernel, bound, connected, any_of, perform, channel_new}

-- A channel that nothing was sent over.
abbrev pub fresh : Channel
fresh = record { sequence = 0; log = [] }

abbrev pub connected_to : SocketAddr → List Effect → List Effect
connected_to addr effects = connected addr ∷ bound (any_of addr.ip) ∷ effects

-- One of the two calls was refused.
pub data IsUnconnected (addr : SocketAddr) (effects : List Effect) : List Effect → Type 0 where
  unbound : IsUnconnected addr effects effects
  bound_only : IsUnconnected addr effects (bound (any_of addr.ip) ∷ effects)

pub channel_new-Post :
    (kernel : Kernel) (addr : SocketAddr) (effects : List Effect)
    → Post {E = Failure}
        (λ channel effects'. (channel ≡ fresh) × (effects' ≡ connected_to addr effects))
        (IsUnconnected addr effects)
        (channel_new kernel addr effects)
unfolding channel_new perform
channel_new-Post kernel addr effects =
    let local = bound (any_of addr.ip) in
    elim (Bool-cases (kernel.allows effects local)) [
      | inr e ↦ rw (perform, e) (fails _ _ unbound)
      | inl e ↦ elim (Bool-cases (kernel.allows (local ∷ effects) (connected addr))) [
        | inr e' ↦ rw (perform, e, e') (fails _ _ bound_only)
        | inl e' ↦ rw (perform, e, e') (returns _ _ (refl, refl))
      ]
    ]
