-- ===== src/Client/Chain.antt =====
-- The loop of ten hops of `execute_with_redirects` against the chains of the redirect engine.
use quik.Base.{
  ℕ, ◌<◌, zero, suc, String, Bool, true, false, Option, none, some, List, ◌≡◌, refl, subst, inl,
  inr, arith,
}
use quik.Effect.{ok, Call-cases}
use quik.Externals.{Externals}
use quik.Redirect.{Hop, first_hop, redirect}
use quik.Redirect.Chains.{Follows, redirect_inv}
use quik.Request.{RequestContext}
use quik.Response.{Response, set_url}
use quik.Client.{Client}
use quik.Client.Rounds.{Round, Trail, exchange-Round}
use quik.Client.Execute.{exchange, run_hops, execute_with_redirects}

module _ (x : Externals) where
  open x use {http, url, Foreign}

  -- A redirect in front of a chain.
  Follows-after :
      {hop next last : Hop} {n : ℕ} (parsed : url.Url) (status : ℕ) (headers : http.HeaderMap)
      → url.parse hop.current_url ≡ ok parsed
      → redirect url http hop parsed status headers ≡ ok (some next)
      → Follows url http next n last
      → Follows url http hop (suc n) last
  Follows-after parsed status headers p e Follows.here =
      Follows.step parsed status headers Follows.here p e
  Follows-after parsed status headers p e (Follows.step parsed' status' headers' f p' e') =
      Follows.step parsed' status' headers' (Follows-after parsed status headers p e f) p' e'

  -- A response is that of the last hop of a chain: `count` redirects were followed, fewer than the
  -- rounds that were left, each of them what an answer brought, and the response is the answer to the
  -- request of the last hop, with the URL of that hop.
  pub record Arrived (t : RequestContext) (initial : Bool) (start : Hop) (rounds : ℕ)
      (response : Response x) : Type 0 where
    pub count : ℕ
    pub last : Hop
    pub within : count < rounds
    pub trail : Trail x t initial start count last response
    pub follows : Follows url http start count last
    pub arrived : response.url ≡ last.current_url

  Arrived-turns :
      {t : RequestContext} {initial : Bool} {hop next : Hop} {rounds : ℕ}
      {answer response : Response x}
      → Round x t initial hop answer (some next)
      → Arrived t false next rounds response
      → Arrived t initial hop (suc rounds) response
  Arrived-turns {hop = hop} {next = next} {answer = answer} r a =
      let (_, _, moved) =
        redirect_inv url http hop next r.parsed answer.status answer.headers r.decides in
      record {
        count = suc a.count;
        last = a.last;
        within = omega (arith, a.within);
        trail = Trail.turns moved r a.trail;
        follows = Follows-after r.parsed _ _ r.parses r.decides a.follows;
        arrived = a.arrived;
      }

  run_hops-Arrived :
      (rounds : ℕ) (t : RequestContext) (initial : Bool) (hop : Hop) (c d : Client x)
      (response : Response x)
      → run_hops x rounds t initial hop c ≡ (ok response, d)
      → Arrived t initial hop rounds response
  unfolding run_hops
  run_hops-Arrived zero t initial hop c d response e = absurd (cc)
  run_hops-Arrived (suc rounds) t initial hop c d response e =
      elim (Call-cases (exchange x t initial hop c)) [
        | inl (g, c', q) ↦ absurd (cc (rw (run_hops, q) at e))
        | inr ((answer, none), c', q) ↦
            let out : set_url x hop.current_url answer ≡ response = cc (rw (run_hops, q) at e) in
            subst (Arrived t initial hop (suc rounds)) out (record {
              count = zero;
              last = hop;
              within = omega arith;
              trail = Trail.ends (exchange-Round x t initial hop c c' answer none q);
              follows = Follows.here;
              arrived = refl;
            })
        | inr ((answer, some next), c', q) ↦
            Arrived-turns (exchange-Round x t initial hop c c' answer (some next) q)
              (run_hops-Arrived rounds t false next c' d response (rw (run_hops, q) at e))
      ]

  -- A response of an execution is the answer to the last hop of a chain of at most nine redirects
  -- that begins at the request. Each hop's request, built for the hop and handed to a connection that
  -- was acquired for the host and port of its URL, was answered; every answer before the last has a
  -- redirection status, and the next hop is what the redirect engine made of that answer's status and
  -- headers; on the last answer the engine stopped, and the response is that answer with the URL of
  -- its hop.
  pub execute_with_redirects-Arrived :
      (method initial_url : String) (body : Option (List ℕ)) (t : RequestContext) (c d : Client x)
      (response : Response x)
      → execute_with_redirects x method initial_url body t c ≡ (ok response, d)
      → Arrived t true (first_hop method initial_url body) 10 response
  unfolding execute_with_redirects
  execute_with_redirects-Arrived method initial_url body t c d response e =
      run_hops-Arrived 10 t true _ c d response e
