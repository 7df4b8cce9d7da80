-- ===== src/Driver/Early.antt =====
-- src/client/quic.rs: the commands that reach the driver before its handshake is complete.
use quik.Base.{ℕ, zero, suc, List, [], ◌∷◌, none, All, ◌≡◌, refl, inl, inr}
use quik.Effect.{err, Result-cases}
use quik.Effect.Kept.{Kept, Kept-state, Kept-if, Kept-continue, Kept-case_option}
use quik.Externals.{Externals}
use quik.Quiche.{QuicheLib}
use quik.Driver.{Requests, Answer, Command, Driver, answer, configure_chrome_h3}
use quik.Driver.Loop.{
  Input, command, received, receive_failed, timer, not_established, on_command, flush, on_input,
  round, rounds, start, run_quic_driver,
}

module _ (x : Externals) where
  open x use {World, Foreign, Quic, Udp}

  unfoldable pub IsPacket : Input x → Type 0
  IsPacket (received bytes from) = Unit
  IsPacket (command cmd) = ⊥
  IsPacket receive_failed = ⊥
  IsPacket timer = ⊥

  unfoldable pub NoPacket : List (Input x) → Type 0
  unfolding IsPacket
  NoPacket = All (λ input. ¬ IsPacket input)

  pub IsRefused : ℕ × Answer x → Type 0
  IsRefused (tx, a) = a ≡ err (not_established x)

  -- Nothing is pending, and all that was answered is the refusal.
  pub record Refusing (r : Requests x) : Type 0 where
    pub none_pending : r.pending ≡ []
    pub refused : All IsRefused r.answered

  module _ (q : QuicheLib x) where
    open q use {H3, H3Config}

    record IsEarly (d : Driver x q) : Type 0 where
      pub no_h3 : d.h3_conn ≡ none
      pub refusing : Refusing d.requests

    on_command-IsEarly :
        (cmd : Command x) (d : Driver x q) → IsEarly d → IsEarly (on_command x q cmd d)
    unfolding on_command answer IsRefused
    on_command-IsEarly cmd d e =
        simp (on_command, e.no_h3)
          (record {
            no_h3 = refl;
            refusing = record {
              none_pending = e.refusing.none_pending;
              refused = (refl, e.refusing.refused);
            };
          })

    moved-IsEarly :
        (d : Driver x q) (c : Quic) (w : World)
        → IsEarly d
        → IsEarly (record d { conn = c; world = w })
    moved-IsEarly d c w e = record { no_h3 = e.no_h3; refusing = e.refusing }

    flush-IsEarly :
        (fuel : ℕ) (socket : Udp) (d : Driver x q)
        → IsEarly d
        → Kept IsEarly (flush x q fuel socket d)
    unfolding flush
    flush-IsEarly zero socket d e = record { kept = e }
    flush-IsEarly (suc fuel) socket d e =
        search
          (
            Kept-continue,
            Kept-case_option,
            Kept-if,
            Kept-state,
            moved-IsEarly,
            flush-IsEarly fuel socket,
          )
          depth 40

    on_input-IsEarly :
        (fuel body_fuel : ℕ) (config : H3Config) (socket : Udp) (input : Input x) (d : Driver x q)
        → ¬ IsPacket input
        → IsEarly d
        → Kept IsEarly (on_input x q fuel body_fuel config socket input d)
    unfolding on_input IsPacket
    on_input-IsEarly fuel body_fuel config socket (command cmd) d n e = record {
      kept = on_command-IsEarly cmd d e;
    }
    on_input-IsEarly fuel body_fuel config socket (received bytes from) d n e = absurd (n tt)
    on_input-IsEarly fuel body_fuel config socket receive_failed d n e = record { kept = e }
    on_input-IsEarly fuel body_fuel config socket timer d n e = record {
      kept = moved-IsEarly d _ d.world e;
    }

    round-IsEarly :
        (packets fuel body_fuel : ℕ) (config : H3Config) (socket : Udp) (input : Input x)
        (d : Driver x q)
        → ¬ IsPacket input
        → IsEarly d
        → Kept IsEarly (round x q packets fuel body_fuel config socket input d)
    unfolding round
    round-IsEarly packets fuel body_fuel config socket input d n e =
        search (Kept-continue, Kept-if, Kept-state, flush-IsEarly, on_input-IsEarly) depth 40

    rounds-IsEarly :
        (packets fuel body_fuel : ℕ) (config : H3Config) (socket : Udp) (inputs : List (Input x))
        (d : Driver x q)
        → NoPacket inputs
        → IsEarly d
        → Kept IsEarly (rounds x q packets fuel body_fuel config socket inputs d)
    unfolding rounds NoPacket
    rounds-IsEarly packets fuel body_fuel config socket [] d n e = record { kept = e }
    rounds-IsEarly packets fuel body_fuel config socket (input ∷ inputs) d (n, m) e =
        search
          (
            Kept-continue,
            Kept-if,
            Kept-state,
            round-IsEarly,
            rounds-IsEarly packets fuel body_fuel config socket inputs,
          )
          depth 40

    start-IsEarly : (conn : Quic) (world : World) → IsEarly (start x q conn world)
    unfolding start
    start-IsEarly conn world = record {
      no_h3 = refl;
      refusing = record { none_pending = refl; refused = tt };
    }

    run-IsEarly :
        (packets fuel body_fuel : ℕ) (socket : Udp) (inputs : List (Input x)) (conn : Quic)
        (world : World)
        → NoPacket inputs
        → Kept IsEarly
            (run_quic_driver x q packets fuel body_fuel socket inputs (start x q conn world))
    unfolding run_quic_driver
    run-IsEarly packets fuel body_fuel socket inputs conn world n =
        elim (Result-cases (configure_chrome_h3 x q)) [
          | inl (e, r) ↦ rw (run_quic_driver, r) (record { kept = start-IsEarly conn world })
          | inr (config, r) ↦
              rw (run_quic_driver, r)
                (rounds-IsEarly packets fuel body_fuel config socket inputs _ n
                  (start-IsEarly conn world))
        ]

    -- Over inputs of which none is a packet from the peer, the driver that has just started keeps
    -- nothing pending, and whatever it answers is that the connection is not yet established, even
    -- where the connection below it is.
    pub run_quic_driver-Refusing :
        (packets fuel body_fuel : ℕ) (socket : Udp) (inputs : List (Input x)) (conn : Quic)
        (world : World)
        → NoPacket inputs
        → Refusing
            (run_quic_driver x q packets fuel body_fuel socket inputs
              (start x q conn world)).1.requests
    run_quic_driver-Refusing packets fuel body_fuel socket inputs conn world n =
        (run-IsEarly packets fuel body_fuel socket inputs conn world n).kept.refusing
