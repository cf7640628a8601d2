-- ===== src/Main/Patience.antt =====
-- src/main.rs and src/poll.rs: with arguments that are accepted, a back off does not get shorter.
use Prim.Native.Nat.{min}
use scanner_button.Prelude.{
  ℕ, ◌^◌, ◌≤◌, ◌≡◌, refl, sym, ap, ◌∙◌, inl, inr, arith, ltb, leb, ◌&&◌, Bool-cases, Option-cases,
  some, none, List, true, false, Option,
}
use scanner_button.Rust.Outcome.{ok, ok-injective, >>=-eq-ok, Outcome-cases}
use scanner_button.Rust.Float.{F32, mul, f32_of_u64, u64_of_f32}
use scanner_button.Rust.Rounding.{scale-ge}
use scanner_button.Rust.Format.{codes}
use scanner_button.Rust.ParseFloat.{Float, nan, infinite, finite, parse_f32}
use scanner_button.Poll.Host.{Endian, host_new}
use scanner_button.Poll.Host.Buffer.{IsHost, host_new-IsHost}
use scanner_button.Listener.{ListenConfig}
use scanner_button.Main.Args.{
  ArgError, ListenOptions, or_default, parse_addr, parse_factor, is_finite, is_greater_than_one,
  magnitude, at_least_one, Options, System, Cli, Commands, Listen, listen, scan, Started, listening,
  scanning, parse_listen, parse_command, parse_cli, start, main,
}

-- The seconds of a back off, times the factor.
abbrev pub scaled : ℕ → ListenConfig → ℕ
scaled d config = u64_of_f32 (mul (f32_of_u64 d) config.backoff_factor)

-- The host name has its bytes, the times are at least a second, and what a back off is followed by
-- is not less than its seconds, the maximum or the largest number of 24 binary digits.
pub record IsPatient (config : ListenConfig) : Type 0 where
  pub host : IsHost config.hostname
  pub initial_positive : 1 ≤ config.initial_max_waiting
  pub maximum_positive : 1 ≤ config.backoff_maximum
  pub grows :
      (d : ℕ)
      → min (min d 0xffffff) config.backoff_maximum ≤ min config.backoff_maximum (scaled d config)

greater-le :
    (f : Float) → (is_finite f && is_greater_than_one f) ≡ true → 2 ^ 149 ≤ (magnitude f).units
unfolding is_finite is_greater_than_one magnitude
greater-le nan h = cc
greater-le (infinite true) h = cc
greater-le (infinite false) h = cc
greater-le (finite true a) h = cc
greater-le (finite false a) h = ground arith

parse_factor-eq-ok : (s : List ℕ) (a : F32) → parse_factor s ≡ ok a → 2 ^ 149 ≤ a.units
unfolding parse_factor
parse_factor-eq-ok s a e = elim (Option-cases (parse_f32 s)) [
  | inl h ↦ cc (rw (parse_factor, h) at e)
  | inr (f, h) ↦ elim (Bool-cases (is_finite f && is_greater_than_one f)) [
    | inl g ↦ rw (sym (ok-injective _ a (rw (parse_factor, h, g) at e))) (greater-le f g)
    | inr g ↦ cc (rw (parse_factor, h, g) at e)
  ]
]

at_least_one-eq-ok : (n m : ℕ) → at_least_one n ≡ ok m → 1 ≤ m
unfolding at_least_one
at_least_one-eq-ok n m e = elim (Bool-cases (leb 1 n && ltb n (2 ^ 64))) [
  | inl h ↦ rw (sym (ok-injective n m (rw h at e))) (ground arith)
  | inr h ↦ cc (rw h at e)
]

command-args : Commands → Listen → Listen
command-args scan other = other
command-args (listen args) other = args

-- The configuration that a listener is started with.
record IsConfigured (cli : Cli) (args : Listen) (config : ListenConfig) : Type 0 where
  host : IsHost config.hostname
  initial : config.initial_max_waiting ≡ cli.max_waiting
  factor : config.backoff_factor ≡ args.backoff_factor
  maximum : config.backoff_maximum ≡ args.backoff_maximum

listening-config : Started → ListenConfig → ListenConfig
listening-config (listening config) other = config
listening-config (scanning n) other = other

start-eq-ok :
    (e : Endian) (cli : Cli) (command : Commands) (config : ListenConfig)
    → start e cli command ≡ ok (listening config)
    → (args : Listen) × (command ≡ listen args) × IsConfigured cli args config
unfolding start listening-config
start-eq-ok e cli scan config h = cc (ok-injective (scanning cli.max_waiting) (listening config) h)
start-eq-ok e cli (listen args) config h =
    let (hostname, made, r) = >>=-eq-ok (host_new e args.hostname) _ h in
    let (hostname', made', sized) = host_new-IsHost {E = ArgError} e args.hostname in
    let same : hostname' ≡ hostname = ok-injective hostname' hostname (sym made' ∙ made) in
    let built =
      ap (λ (s : Started). listening-config s config) (ok-injective _ (listening config) r) in
    (
      args,
      refl,
      record {
        host = rw (← built) (rw same at sized);
        initial = rw (← built) refl;
        factor = rw (← built) refl;
        maximum = rw (← built) refl;
      },
    )

parse_listen-eq-ok :
    (system : System) (o : ListenOptions) (args : Listen)
    → parse_listen system o ≡ ok args
    → (2 ^ 149 ≤ args.backoff_factor.units) × (1 ≤ args.backoff_maximum)
unfolding parse_listen
parse_listen-eq-ok system o args h =
    let factor_text : List ℕ = or_default o.backoff_factor (codes "2") in
    let maximum_number : ℕ = or_default o.backoff_maximum 1800 in
    let (scanner, e1, r1) = >>=-eq-ok (parse_addr system.to_socket_addrs o.scanner) _ h in
    let (factor, e2, r2) = >>=-eq-ok (parse_factor factor_text) _ r1 in
    let (maximum, e3, r3) = >>=-eq-ok (at_least_one maximum_number) _ r2 in
    let same = ok-injective _ args r3 in
    (
      rw (← same) (parse_factor-eq-ok factor_text factor e2),
      rw (← same) (at_least_one-eq-ok maximum_number maximum e3),
    )

parse_command-eq-ok :
    (system : System) (o : Option ListenOptions) (args : Listen)
    → parse_command system o ≡ ok (listen args)
    → (2 ^ 149 ≤ args.backoff_factor.units) × (1 ≤ args.backoff_maximum)
unfolding parse_command command-args
parse_command-eq-ok system none args h = cc (ok-injective scan (listen args) h)
parse_command-eq-ok system (some o) args h = elim (Outcome-cases (parse_listen system o)) [
  | inr (inr e) ↦ cc (rw e at h)
  | inr (inl (x, e)) ↦ cc (rw e at h)
  | inl (found, e) ↦
      let same =
        ap (λ (c : Commands). command-args c args)
          (ok-injective (listen found) (listen args) (rw e at h)) in
      parse_listen-eq-ok system o args (e ∙ ap ok same)
]

-- What the value parsers and `Host::new` ensure of a listener that is started.
pub main-IsPatient :
    (e : Endian) (system : System) (o : Options) (config : ListenConfig)
    → main e system o ≡ ok (listening config)
    → IsPatient config
unfolding main parse_cli
main-IsPatient e system o config h =
    let (cli, e1, r1) = >>=-eq-ok (parse_cli system o) (λ cli. start e cli cli.command) h in
    let (args, is_listen, k) = start-eq-ok e cli cli.command config r1 in
    let (waiting, e2, r2) = >>=-eq-ok (at_least_one (or_default o.max_waiting 5)) _ e1 in
    let (command, e3, r3) = >>=-eq-ok (parse_command system o.listen) _ r2 in
    let same = ok-injective _ cli r3 in
    let (factor, maximum) =
      parse_command-eq-ok system o.listen args
        (e3 ∙ ap ok (ap (λ (c : Cli). c.command) same ∙ is_listen)) in
    let initial : 1 ≤ cli.max_waiting = rw (← same) (at_least_one-eq-ok _ waiting e2) in
    record {
      host = k.host;
      initial_positive = omega (arith, k.initial);
      maximum_positive = omega (arith, k.maximum);
      grows = λ d. omega (arith, scale-ge d config.backoff_factor (rw k.factor factor));
    }
