-- ===== src/Listener/Recovers.antt =====
-- src/poll.rs: the listener gets back to polling when the scanner answers.
use scanner_button.Prelude.{
  ℕ, ◌+◌, ◌%◌, ◌<◌, ◌≤◌, ◌≡◌, ◌≢◌, ◌⊎◌, inl, inr, refl, sym, ap, ◌∙◌, some, List, [], ◌∷◌, arith,
  take,
}
use mathlib.Core.Path.{subst}
use scanner_button.Rust.Outcome.{ok}
use scanner_button.Serdes.Traits.{empty, empty_serialize, empty_deserialize, Empty-IsCodec}
use scanner_button.Header.{PayloadType}
use scanner_button.Packet.{PacketHeaderOnly, parse}
use scanner_button.Poll.Host.{Host}
use scanner_button.Poll.Host.Buffer.{IsHost}
use scanner_button.Poll.Command.{
  TimeCrate, HasText, command_serialize, command_deserialize, inner_size,
}
use scanner_button.Poll.Command.RoundTrip.{Command-IsCodec, Command-encode, take-host_only_bytes}
use scanner_button.Poll.Response.{Response, response_deserialize}
use scanner_button.Discover
use scanner_button.Channel.{
  Event, sent, Network, HasPeer, done, Channel, send, recv, reset_sequence,
}
use scanner_button.Channel.Sends.{send-done}
use scanner_button.Channel.Receives.{Replies, recv-done, after}
use scanner_button.Listener.Handlers.{
  Machine, State, Listener, try_init, send_poll, recv_poll, recv_discover, next, next_from,
  listen_round, listen_rounds,
}
use scanner_button.Listener.Launch.{ListenConfig}
use scanner_button.Listener.Rounds.{IsStep, polled, lost, listen_round-Advances}
use scanner_button.Listener.Dialogue.{host_command}
use scanner_button.Listener.Steps.{host_only_builds}

poll_cases : (state : State) → (state ≡ State.poll) ⊎ (state ≢ State.poll)
poll_cases State.init = inr (λ e. cc)
poll_cases State.poll = inl refl
poll_cases (State.backoff d) = inr (λ e. cc)

poll_steps :
    (config : ListenConfig) (state : State)
    → IsStep config State.poll state
    → (state ≡ State.poll) ⊎ (state ≡ State.init)
poll_steps config _ polled = inl refl
poll_steps config _ lost = inr refl

-- A scanner that is there: the socket knows its peer; every packet is taken; a discover command is answered with a response,
-- and a host-only poll, which starts with its type, with a response that has a session.
pub record IsAnswering (net : Network) : Type 0 where
  pub peers : (log : List Event) → HasPeer net log
  pub takes : (limit : ℕ) (log : List Event) (buffer : List ℕ) → net.send limit log buffer ≡ done tt
  pub discovers :
      (limit : ℕ) (log : List Event) (buffer : List ℕ) (packet : PacketHeaderOnly)
      → parse buffer ≡ ok packet
      → packet.header.payload_type ≡ PayloadType.discover
      → (device : Discover.Response) × Replies ⦃d = Discover.response_deserialize⦄ net limit
          (sent buffer ∷ log)
          device
  pub opens :
      (limit : ℕ) (log : List Event) (buffer : List ℕ) (packet : PacketHeaderOnly)
      → parse buffer ≡ ok packet
      → packet.header.payload_type ≡ PayloadType.poll
      → take 2 packet.payload ≡ 0 ∷ 1 ∷ []
      → (resp : Response) × (session_id : ℕ) × (resp.session_id ≡ some session_id)
        × Replies net limit (sent buffer ∷ log) resp

module _ {t : TimeCrate} (m : Machine t) (there : IsAnswering m.network) where
  -- The first two calls, from a channel whose numbers start again.
  discovered :
      (limit : ℕ) (channel : Channel)
      → channel.sequence ≡ 0
      → (c1 : Channel) × (device : Discover.Response) × (c2 : Channel) × (send m.network limit
            PayloadType.discover empty channel
          ≡ (ok tt, c1))
        × (recv ⦃d = Discover.response_deserialize⦄ m.network limit c1 ≡ (ok device, c2))
        × (c2.sequence ≡ 1)
  discovered limit channel fresh =
      let (c1, e1, s1) =
        send-done Empty-IsCodec m.network limit PayloadType.discover empty channel tt (omega arith)
          (omega arith) (there.peers channel.log) (there.takes limit channel.log) in
      let (device, r1) = there.discovers limit channel.log s1.buffer _ s1.parsed refl in
      let r2 =
        subst
          (λ (log : List Event).
            Replies ⦃d = Discover.response_deserialize⦄ m.network limit log device)
          (sym s1.logged) r1 in
      (
        c1,
        device,
        after c1 r2.datagram,
        e1,
        recv-done ⦃d = Discover.response_deserialize⦄ m.network limit c1 device r2,
        s1.numbered ∙ ap (λ (n : ℕ). (n + 1) % 65536) fresh,
      )

  host_command_small : (host : Host) → command_serialize.size (host_command m host) < 4294967296
  unfolding inner_size
  host_command_small host = omega arith

  -- The other two.
  session_opened :
      (limit : ℕ) (host : Host) (channel : Channel)
      → IsHost host
      → channel.sequence ≡ 1
      → (c3 : Channel) × (resp : Response) × (c4 : Channel) × (session_id : ℕ) × (send m.network
            limit PayloadType.poll
            (host_command m host)
            channel
          ≡ (ok tt, c3))
        × (recv ⦃d = response_deserialize⦄ m.network limit c3 ≡ (ok resp, c4))
        × (resp.session_id ≡ some session_id)
  session_opened limit host channel held one =
      let (c3, e3, s3) =
        send-done Command-IsCodec m.network limit PayloadType.poll (host_command m host) channel
          held (host_command_small host) (omega arith) (there.peers channel.log)
          (there.takes limit channel.log) in
      let (resp, session_id, has, r3) = there.opens limit channel.log s3.buffer _ s3.parsed refl (
        ap (take 2) (Command-encode (host_command m host))
        ∙ take-host_only_bytes t (record { host = host })) in
      let r4 =
        subst (λ (log : List Event). Replies ⦃d = response_deserialize⦄ m.network limit log resp)
          (sym s3.logged) r3 in
      (
        c3,
        resp,
        after c3 r4.datagram,
        session_id,
        e3,
        recv-done ⦃d = response_deserialize⦄ m.network limit c3 resp r4,
        has,
      )

  pub try_init-answered :
      (limit : ℕ) (self : Listener)
      → IsHost self.config.hostname
      → (self' : Listener) × (try_init m limit self ≡ (ok tt, self'))
  unfolding try_init send_poll recv_poll recv_discover reset_sequence
  try_init-answered limit self held =
      let (c1, device, c2, e1, e2, one) =
        discovered limit (record self.channel { sequence = 0 }) refl in
      let (c3, resp, c4, session_id, e3, e4, has) =
        session_opened limit self.config.hostname c2 held one in
      (
        record self { channel = c4; session_id = session_id },
        rw (e1, e2, host_only_builds {t = t} self.config.hostname, e3, e4, has),
      )

  opened_from :
      (state : State) (self : Listener)
      → state ≢ State.poll
      → IsHost self.config.hostname
      → (self' : Listener) × (next_from m state self ≡ (ok State.poll, self'))
  unfolding next_from
  opened_from State.init self h held =
      let (self', e) = try_init-answered self.config.initial_max_waiting self held in (self', rw e)
  opened_from State.poll self h held = absurd (h refl)
  opened_from (State.backoff d) self h held =
      let (self', e) = try_init-answered d self held in (self', rw e)

  round_opens :
      (self : Listener)
      → self.state ≢ State.poll
      → IsHost self.config.hostname
      → (self' : Listener) × (listen_round m self ≡ some self') × (self'.state ≡ State.poll)
  unfolding listen_round next
  round_opens self h held =
      let (self', e) = opened_from self.state self h held in
      (record self' { state = State.poll }, rw e, refl)

  module _ (dated : (log : List Event) → HasText t (m.now log)) where
    -- Whatever state a listener is in, if the scanner is there, the configured host name has its 64
    -- bytes and every date has a text, the listener is polling after one round or after two.
    pub listen_rounds-recovers :
        (self : Listener)
        → IsHost self.config.hostname
        → (n : ℕ) × (0 < n)
          × (n ≤ 2)
          × (self' : Listener) × (listen_rounds m n self ≡ some self')
          × (self'.state ≡ State.poll)
    unfolding listen_rounds
    listen_rounds-recovers self held = elim (poll_cases self.state) [
      | inr h ↦
          let (self', e, polls) = round_opens self h held in
          (1, omega arith, omega arith, self', rw (listen_rounds, e), polls)
      | inl polling ↦
          let (one, e, (step, same)) = listen_round-Advances m there.peers dated self in
          elim (poll_steps self.config one.state
            (subst (λ (st : State). IsStep self.config st one.state) polling step)) [
              | inl polls ↦ (1, omega arith, omega arith, one, rw (listen_rounds, e), polls)
              | inr failed ↦
                  let (two, f, polls) =
                    round_opens one (λ (k : one.state ≡ State.poll). cc (failed, k))
                      (rw same held) in
                  (2, omega arith, omega arith, two, rw (listen_rounds, e, f), polls)
            ]
    ]
