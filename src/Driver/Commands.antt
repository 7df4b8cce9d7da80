-- ===== src/Driver/Commands.antt =====
-- The commands of src/client/quic.rs: one that is taken adds one to what its channel is owed.

use quik.Base.{
  ℕ, suc, ◌+◌, ◌≤◌, true, List, Option, none, some, Option-cases, is_some, not, arith, ◌≡◌, inl,
  inr,
}
use quik.Failure.{Error}
use quik.Effect.{err, Call-cases}
use quik.Externals.{Externals}
use quik.Quiche.{QuicheLib, QuicheLaws}
use quik.Streams.{lookup, insert-IsMap, lookup-insert}
use quik.Driver.{Command, Driver, answer}
use quik.Driver.Tally.{tick, owed-answer, owed-admit}
use quik.Driver.Accounting.{Accounted, bound, moved}
use quik.Driver.Loop.{not_established, on_command, refuse, admit, issued, with_body, new_request}

module _ (x : Externals) where
  open x use {World, Foreign, Quic, Udp, Address}

  module _ (q : QuicheLib x) (l : QuicheLaws x q) where
    open q use {H3, H3Config}

    -- A command that is taken adds one to what its channel is owed.
    unfoldable pub ticked : (ℕ → ℕ) → ℕ → ℕ → ℕ
    ticked n tx t = n t + tick tx t

    refused :
        (n : ℕ → ℕ) (cmd : Command x) (e : Error Foreign) (d : Driver x q)
        → Accounted x q l n d
        → Accounted x q l (ticked n cmd.response_tx) (refuse x q cmd e d)
    unfolding ticked answer
    refused n cmd e d a = record {
      tracked = record { is_map = a.tracked.is_map; fresh = a.tracked.fresh };
      books = λ t. omega (arith, a.books t, owed-answer x t cmd.response_tx (err e) d.requests);
    }

    admitted :
        (n : ℕ → ℕ) (cmd : Command x) (id : ℕ) (h : H3) (c : Quic) (d : Driver x q)
        → lookup id d.requests.pending ≡ none
        → bound x q l d.h3_conn ≤ l.opened h
        → suc id ≤ l.opened h
        → Accounted x q l n d
        → Accounted x q l (ticked n cmd.response_tx) (record d {
          h3_conn = some h;
          conn = c;
          requests = admit x id (new_request x cmd) d.requests;
        })
    unfolding ticked new_request
    admitted n cmd id h c d e b b' a = record {
      tracked = record {
        is_map = insert-IsMap id (new_request x cmd) d.requests.pending a.tracked.is_map;
        fresh = λ j k.
            rw
              (
                lookup-insert id j (new_request x cmd) d.requests.pending,
                a.tracked.fresh j (omega (arith, b, k)),
              )
              (ground (arith, b', k));
      };
      books = λ t. omega (arith, a.books t, owed-admit x t id (new_request x cmd) d.requests e);
    }

    with_body_opened :
        (h : H3) (c : Quic) (id : ℕ) (body : Option (List ℕ))
        → l.opened h ≤ l.opened (with_body x q h c id body).0
    with_body_opened h c id none = omega arith
    with_body_opened h c id (some bytes) = l.send_body-opened h c id bytes true

    issued-Accounted :
        (n : ℕ → ℕ) (cmd : Command x) (h : H3) (d : Driver x q)
        → d.h3_conn ≡ some h
        → Accounted x q l n d
        → Accounted x q l
            (ticked n cmd.response_tx)
            (issued x q cmd (q.send_request h d.conn cmd.headers (not (is_some cmd.body))) d)
    issued-Accounted n cmd h d e a =
        elim (Call-cases (q.send_request h d.conn cmd.headers (not (is_some cmd.body)))) [
          | inl (f, (h', c'), r) ↦ rw r (
              refused n cmd _ _ (
                moved x q l n d (some h') c' d.world
                  (rw e (l.send_request-refused h h' _ c' _ _ f r)) a))
          | inr (id, (h', c'), r) ↦
              let new = l.send_request-opened h h' _ c' _ _ id r in
              let grown = with_body_opened h' c' id cmd.body in
              rw r (
                admitted n cmd id _ _ d (a.tracked.fresh id (rw e new.0))
                  (rw e (omega (arith, new, grown))) (omega (arith, new, grown)) a)
        ]

    pub on_command-Accounted :
        (n : ℕ → ℕ) (cmd : Command x) (d : Driver x q)
        → Accounted x q l n d
        → Accounted x q l (ticked n cmd.response_tx) (on_command x q cmd d)
    unfolding on_command
    on_command-Accounted n cmd d a = elim (Option-cases d.h3_conn) [
      | inl e ↦
          simp (on_command, e)
            (refused n cmd (not_established x) _
              (moved x q l n d none d.conn d.world (rw e (omega arith)) a))
      | inr (h, e) ↦ simp (on_command, e) (issued-Accounted n cmd h d e a)
    ]
