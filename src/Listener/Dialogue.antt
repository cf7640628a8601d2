-- ===== src/Listener/Dialogue.antt =====
-- src/poll.rs: a successful `try_init` is four calls on the channel, one after the other.
use scanner_button.Prelude.{ℕ, ◌≡◌, refl, sym, ap, Option, none, some}
use scanner_button.Rust.Outcome.{Outcome, ok, err, panic, ok_or}
use scanner_button.Rust.Run.{Run, continue, modify}
use scanner_button.Serdes.Traits.{empty, empty_serialize, empty_deserialize}
use scanner_button.Header.{PayloadType}
use scanner_button.Poll.Host.{Host}
use scanner_button.Poll.Command.{TimeCrate, Command, command_serialize, command_deserialize}
use scanner_button.Poll.Response.{Response, response_deserialize}
use scanner_button.Discover
use scanner_button.Channel.{Failure, unexpected_interrupt, Channel, send, recv, reset_sequence}
use scanner_button.Listener.Handlers.{
  Machine, Listener, put_channel, send_poll, recv_poll, recv_discover, try_init,
}
use scanner_button.Listener.Steps.{host_only_builds}

call-eq-ok :
    {A B : Type 0} (self self' : Listener) (r : Outcome A Failure × Channel)
    (next : A → Run Listener Failure B) (b : B)
    → continue (put_channel self r) next ≡ (ok b, self')
    → (a : A) × (c : Channel) × (r ≡ (ok a, c))
      × (next a (record self { channel = c }) ≡ (ok b, self'))
call-eq-ok self self' (ok a, c) next b e = (a, c, refl, e)
call-eq-ok self self' (err x, c) next b e = cc (ap (λ p. p.0) e)
call-eq-ok self self' (panic, c) next b e = cc (ap (λ p. p.0) e)

module _ {t : TimeCrate} (m : Machine t) where
  abbrev pub host_command : Host → Command t
  host_command host = Command.host_only (record { host = host })

  -- The four calls, one after the other.
  pub record Calls (limit : ℕ) (self self' : Listener) : Type 0 where
    pub c1 : Channel
    pub c2 : Channel
    pub c3 : Channel
    pub c4 : Channel
    pub device : Discover.Response
    pub resp : Response
    pub discover_sent :
        send m.network limit PayloadType.discover empty (record self.channel { sequence = 0 })
        ≡ (ok tt, c1)
    pub device_read : recv ⦃d = Discover.response_deserialize⦄ m.network limit c1 ≡ (ok device, c2)
    pub poll_sent :
        send m.network limit PayloadType.poll (host_command self.config.hostname) c2 ≡ (ok tt, c3)
    pub resp_read : recv m.network limit c3 ≡ (ok resp, c4)
    pub session_id : ℕ
    pub has_session : resp.session_id ≡ some session_id
    pub left : self' ≡ record self { channel = c4; session_id = session_id }

  opens :
      (self self' : Listener) (o : Option ℕ)
      → continue
          (ok_or o unexpected_interrupt, self)
          (λ session_id. modify λ (x : Listener). record x { session_id = session_id })
        ≡ (ok tt, self')
      → (session_id : ℕ) × (o ≡ some session_id) × (self' ≡ record self { session_id = session_id })
  opens self self' none e = cc (ap (λ (p : Outcome (Unit {0}) Failure × Listener). p.0) e)
  opens self self' (some session_id) e =
      (session_id, refl, sym (ap (λ (p : Outcome (Unit {0}) Failure × Listener). p.1) e))

  pub try_init-Calls :
      (limit : ℕ) (self self' : Listener)
      → try_init m limit self ≡ (ok tt, self')
      → Calls limit self self'
  unfolding try_init send_poll recv_poll recv_discover reset_sequence
  try_init-Calls limit self self' e =
      let c0 : Channel = record self.channel { sequence = 0 } in
      let self0 : Listener = record self { channel = c0 } in
      let (_, c1, e1, n1) =
        call-eq-ok self0 self' (send m.network limit PayloadType.discover empty c0) _ tt e in
      let (x, c2, e2, n2) =
        call-eq-ok (record self { channel = c1 }) self'
          (recv ⦃d = Discover.response_deserialize⦄ m.network limit c1) _ tt n1 in
      let n2' = rw (host_only_builds {t = t} self.config.hostname) at n2 in
      let (_, c3, e3, n3) =
        call-eq-ok (record self { channel = c2 }) self'
          (send m.network limit PayloadType.poll (host_command self.config.hostname) c2) _ tt n2' in
      let (resp, c4, e4, n4) =
        call-eq-ok (record self { channel = c3 }) self' (recv m.network limit c3) _ tt n3 in
      let (session_id, has, left) = opens (record self { channel = c4 }) self' resp.session_id n4 in
      record {
        c1 = c1;
        c2 = c2;
        c3 = c3;
        c4 = c4;
        device = x;
        resp = resp;
        discover_sent = e1;
        device_read = e2;
        poll_sent = e3;
        resp_read = e4;
        session_id = session_id;
        has_session = has;
        left = left;
      }
