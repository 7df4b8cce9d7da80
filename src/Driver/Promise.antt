-- ===== src/Driver/Promise.antt =====
-- No command of the driver of src/client/quic.rs is lost or answered twice.

use quik.Base.{
  ℕ, ◌+◌, ◌≤◌, Bool, true, false, List, [], ◌∷◌, if◌then◌else◌, arith, ◌≡◌, refl, ◌∙◌, Bool-cases,
  inl, inr,
}
use quik.Failure.{Failure}
use quik.Effect.{Result, ok, err, pure, continue, Result-cases}
use quik.Effect.Kept.{Kept}
use quik.Externals.{Externals}
use quik.Quiche.{QuicheLib, QuicheLaws}
use quik.Streams.{lookup}
use quik.Driver.{Driver, Act, configure_chrome_h3}
use quik.Driver.Tally.{tick, owed, owed-nothing}
use quik.Driver.Accounting.{Accounted, carried, flush-Kept, on_received-Kept}
use quik.Driver.Commands.{ticked, on_command-Accounted}
use quik.Driver.Loop.{
  Input, command, received, receive_failed, timer, on_input, round, rounds, start, run_quic_driver,
}

module _ (x : Externals) where
  open x use {World, Foreign, Quic, Udp, Address}

  pub commanded : ℕ → List (Input x) → ℕ
  commanded t [] = 0
  commanded t (command cmd ∷ inputs) = tick cmd.response_tx t + commanded t inputs
  commanded t (received bytes from ∷ inputs) = commanded t inputs
  commanded t (receive_failed ∷ inputs) = commanded t inputs
  commanded t (timer ∷ inputs) = commanded t inputs

  module _ (q : QuicheLib x) (l : QuicheLaws x q) where
    open q use {H3, H3Config}

    -- A run that leaves `count` on the books, all of `due` where it goes on.
    record Books (due : ℕ → ℕ) (r : Result (Failure Foreign) Bool × Driver x q) : Type 0 where
      pub count : ℕ → ℕ
      pub accounted : Accounted x q l count r.1
      pub at_most : (t : ℕ) → count t ≤ due t
      pub all : r.0 ≡ ok true → (t : ℕ) → count t ≡ due t

    due : (ℕ → ℕ) → List (Input x) → ℕ → ℕ
    due n inputs t = n t + commanded t inputs

    -- An act that takes no command.
    Kept-Books :
        (n : ℕ → ℕ) (input : Input x) (r : Result (Failure Foreign) Bool × Driver x q)
        → ((t : ℕ) → commanded t (input ∷ []) ≡ 0)
        → Kept (Accounted x q l n) r
        → Books (due n (input ∷ [])) r
    unfolding due
    Kept-Books n input r z k = record {
      count = n;
      accounted = k.kept;
      at_most = λ t. omega arith;
      all = λ e t. omega (arith, z t);
    }

    on_input-Books :
        (n : ℕ → ℕ) (fuel body_fuel : ℕ) (config : H3Config) (socket : Udp) (input : Input x)
        (d : Driver x q)
        → Accounted x q l n d
        → Books (due n (input ∷ [])) (on_input x q fuel body_fuel config socket input d)
    unfolding on_input due commanded ticked
    on_input-Books n fuel body_fuel config socket (command cmd) d a = record {
      count = ticked x q l n cmd.response_tx;
      accounted = on_command-Accounted x q l n cmd d a;
      at_most = λ t. omega arith;
      all = λ e t. omega arith;
    }
    on_input-Books n fuel body_fuel config socket (received bytes from) d a =
        Kept-Books n (received bytes from) _ (λ t. refl)
          (on_received-Kept x q l n fuel body_fuel config socket bytes from d a)
    on_input-Books n fuel body_fuel config socket receive_failed d a =
        Kept-Books n receive_failed _ (λ t. refl) (record { kept = a })
    on_input-Books n fuel body_fuel config socket timer d a =
        Kept-Books n timer _ (λ t. refl) (record { kept = carried x q l n d _ d.world a })

    -- A round that ends before its input is taken.
    stopped :
        (n k : ℕ → ℕ) (e : Result (Failure Foreign) Bool) (d : Driver x q)
        → ¬ (e ≡ ok true)
        → ((t : ℕ) → n t ≤ k t)
        → Accounted x q l n d
        → Books k (e, d)
    stopped n k e d ended b a = record {
      count = n;
      accounted = a;
      at_most = b;
      all = λ yes. absurd (ended yes);
    }

    after_flush :
        (n k : ℕ → ℕ) (r : Result (Failure Foreign) (Unit {0}) × Driver x q) (act : Act x q Bool)
        → ((t : ℕ) → n t ≤ k t)
        → Kept (Accounted x q l n) r
        → ((d : Driver x q) → Accounted x q l n d → Books k (act d))
        → Books k (continue r (λ u. act))
    after_flush n k (ok u, d) act b a f = f d a.kept
    after_flush n k (err e, d) act b a f = stopped n k (err e) d (λ e. absurd (cc)) b a.kept

    round-Books :
        (n : ℕ → ℕ) (packets fuel body_fuel : ℕ) (config : H3Config) (socket : Udp)
        (input : Input x) (d : Driver x q)
        → Accounted x q l n d
        → Books (due n (input ∷ [])) (round x q packets fuel body_fuel config socket input d)
    unfolding round due
    round-Books n packets fuel body_fuel config socket input d a =
        elim (Bool-cases (q.is_closed d.conn)) [
          | inl c ↦ rw c (stopped n _ (ok false) d (λ e. absurd (cc)) (λ t. omega arith) a)
          | inr c ↦ rw c (
              after_flush n _ _ _ (λ t. omega arith) (flush-Kept x q l n packets socket d a)
                (on_input-Books n fuel body_fuel config socket input))
        ]

    before_rounds :
        (k k' : ℕ → ℕ) (r : Result (Failure Foreign) Bool × Driver x q) (act : Act x q Bool)
        → ((t : ℕ) → k t ≤ k' t)
        → Books k r
        → ((d : Driver x q) → Accounted x q l k d → Books k' (act d))
        → Books k' (continue r (λ goes_on. if goes_on then act else pure false))
    before_rounds k k' (ok true, d) act b a f =
        f d (record {
          tracked = a.accounted.tracked;
          books = λ t. a.accounted.books t ∙ a.all refl t;
        })
    before_rounds k k' (ok false, d) act b a f =
        stopped a.count k' (ok false) d (λ e. absurd (cc)) (λ t. omega (arith, a.at_most t, b t))
          a.accounted
    before_rounds k k' (err e, d) act b a f =
        stopped a.count k' (err e) d (λ e. absurd (cc)) (λ t. omega (arith, a.at_most t, b t))
          a.accounted

    same-Books :
        (k k' : ℕ → ℕ) (r : Result (Failure Foreign) Bool × Driver x q)
        → ((t : ℕ) → k t ≡ k' t)
        → Books k r
        → Books k' r
    same-Books k k' r e b = record {
      count = b.count;
      accounted = b.accounted;
      at_most = λ t. omega (arith, b.at_most t, e t);
      all = λ yes t. omega (arith, b.all yes t, e t);
    }

    later :
        (n : ℕ → ℕ) (t : ℕ) (input : Input x) (inputs : List (Input x))
        → due (due n (input ∷ [])) inputs t ≡ due n (input ∷ inputs) t
    unfolding due commanded
    later n t (command cmd) inputs = omega arith
    later n t (received bytes from) inputs = omega arith
    later n t receive_failed inputs = omega arith
    later n t timer inputs = omega arith

    rounds-Books :
        (n : ℕ → ℕ) (packets fuel body_fuel : ℕ) (config : H3Config) (socket : Udp)
        (inputs : List (Input x)) (d : Driver x q)
        → Accounted x q l n d
        → Books (due n inputs) (rounds x q packets fuel body_fuel config socket inputs d)
    unfolding rounds due commanded
    rounds-Books n packets fuel body_fuel config socket [] d a = record {
      count = n;
      accounted = a;
      at_most = λ t. omega arith;
      all = λ e t. omega arith;
    }
    rounds-Books n packets fuel body_fuel config socket (input ∷ inputs) d a =
        before_rounds (due n (input ∷ [])) _ _ _ (λ t. omega (arith, later n t input inputs))
          (round-Books n packets fuel body_fuel config socket input d a)
          (λ d' a'.
            same-Books _ _ _ (λ t. later n t input inputs)
              (rounds-Books (due n (input ∷ [])) packets fuel body_fuel config socket inputs d' a'))

    start-Accounted :
        (conn : Quic) (world : World) → Accounted x q l (λ t. 0) (start x q conn world)
    unfolding start lookup
    start-Accounted conn world = record {
      tracked = record { is_map = tt; fresh = λ id b. refl };
      books = owed-nothing x;
    }

    run-Books :
        (packets fuel body_fuel : ℕ) (socket : Udp) (inputs : List (Input x)) (conn : Quic)
        (world : World)
        → Books
            (due (λ t. 0) inputs)
            (run_quic_driver x q packets fuel body_fuel socket inputs (start x q conn world))
    unfolding run_quic_driver due
    run-Books packets fuel body_fuel socket inputs conn world =
        elim (Result-cases (configure_chrome_h3 x q)) [
          | inl (e, r) ↦
              rw (run_quic_driver, r)
                (stopped _ _ (ok false) _ (λ e. absurd (cc)) (λ t. omega arith)
                  (start-Accounted conn world))
          | inr (config, r) ↦
              rw (run_quic_driver, r)
                (rounds-Books (λ t. 0) packets fuel body_fuel config socket inputs _
                  (start-Accounted conn world))
        ]

    -- Where the library never uses a stream id twice: after any inputs, with any numbers of fuel, a
    -- channel waits for an answer or has got one at most as often as it came with a command among the
    -- inputs, so that a channel that came once is answered at most once.
    pub run_quic_driver-owed_at_most :
        (packets fuel body_fuel : ℕ) (socket : Udp) (inputs : List (Input x)) (conn : Quic)
        (world : World) (tx : ℕ)
        → owed x tx
            (run_quic_driver x q packets fuel body_fuel socket inputs
              (start x q conn world)).1.requests
          ≤ commanded tx inputs
    unfolding due
    run_quic_driver-owed_at_most packets fuel body_fuel socket inputs conn world tx =
        let b = run-Books packets fuel body_fuel socket inputs conn world in
        omega (arith, b.at_most tx, b.accounted.books tx)

    -- Where the library never uses a stream id twice and the driver is still going after all inputs: a
    -- channel waits for an answer or has got one exactly as often as it came with a command among the
    -- inputs. No command is lost, whatever came between.
    pub run_quic_driver-owed :
        (packets fuel body_fuel : ℕ) (socket : Udp) (inputs : List (Input x)) (conn : Quic)
        (world : World) (tx : ℕ)
        → (run_quic_driver x q packets fuel body_fuel socket inputs (start x q conn world)).0
          ≡ ok true
        → owed x tx
            (run_quic_driver x q packets fuel body_fuel socket inputs
              (start x q conn world)).1.requests
          ≡ commanded tx inputs
    unfolding due
    run_quic_driver-owed packets fuel body_fuel socket inputs conn world tx e =
        let b = run-Books packets fuel body_fuel socket inputs conn world in
        omega (arith, b.accounted.books tx, b.all e tx)
