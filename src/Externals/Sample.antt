-- ===== src/Externals/Sample.antt =====
-- A concrete outside: the world is the list of the blocks that the peer will send. It shows that the
-- laws can hold, and runs the examples.
use quik.Base.{
  ℕ, zero, suc, ◌≤◌, ◌==◌, String, false, none, some, List, [], ◌∷◌, length, take, arith,
  if◌then◌else◌, ◌≡◌, subst, ==_iff,
}
use quik.Effect.{Result, ok, err}
use quik.Http.Sample.{sample_http}
use quik.Url.Sample.{Address, sample_url}
use quik.Externals.{Externals, ExternalLaws}

abbrev pub Blocks : Type 0
Blocks = List (List ℕ)

-- What a block is cut to.
unfoldable pub receive : ℕ → Blocks → Result String (List ℕ) × Blocks
receive n [] = (ok [], [])
receive n (block ∷ blocks) = (ok (take n block), blocks)

unfoldable pub receive_exact : ℕ → Blocks → Result String (List ℕ) × Blocks
receive_exact n [] = (err "early eof", [])
receive_exact n (block ∷ blocks) =
    if length block == n then (ok block, blocks) else (err "early eof", blocks)

abbrev done : {A : Type 0} → A → Blocks → Result String A × Blocks
done a w = (ok a, w)

abbrev pub sample : List Address → Externals
sample known = record {
  http = sample_http;
  url = sample_url known;
  World = Blocks;
  Foreign = String;
  CookieStore = Unit {0};
  matches = λ s u. [];
  parse_cookie = λ s c u. s;
  refusal = λ m u. none;
  uri_to_string = λ u. u;
  uri_scheme = λ u. some "https";
  uri_authority = λ u. some u;
  uri_path_and_query = λ u. none;
  entries = λ h. [];
  Address = String;
  is_ipv6 = λ a. false;
  to_socket_addrs = λ n. done (n ∷ []);
  Tcp = Unit {0};
  tcp_connect_name = λ n. done tt;
  tcp_connect = λ a. done tt;
  read = λ t n w. receive n w;
  read_exact = λ t n w. receive_exact n w;
  write_all = λ t b. done tt;
  SslBuilder = Unit {0};
  ssl_builder = done tt;
  tls_call = λ b c. done tt;
  SslConfig = Unit {0};
  configure = λ b. done tt;
  config_call = λ b c. done tt;
  TlsStream = Unit {0};
  tls_handshake = λ c n t. done tt;
  SendRequest = Unit {0};
  h2_handshake = λ c t. done tt;
  h2_ready = λ s. done tt;
  ResponseFuture = Unit {0};
  SendStream = Unit {0};
  RecvStream = Unit {0};
  h2_send_request = λ s m u h e. done (tt, tt);
  h2_send_data = λ s b e. done tt;
  h2_response = λ f. done (200, [], tt);
  h2_data = λ r. done none;
  Udp = Unit {0};
  udp_bind = λ a. done tt;
  udp_connect = λ u a. done tt;
  QuicConfig = Unit {0};
  quic_config = done tt;
  quic_call = λ c q. done tt;
  Quic = Unit {0};
  quic_connect = λ h l a c. done tt;
  Sender = Unit {0};
  spawn_driver = λ u q a w. (tt, w);
  Receiver = String;
  send_command = λ t h b u. done u;
  receive_answer = λ u. done (ok (200, [], [], u));
}

length-take : (n : ℕ) (xs : List ℕ) → length (take n xs) ≤ n
length-take zero xs = omega arith
length-take (suc n) [] = omega arith
length-take (suc n) (x ∷ xs) = omega (arith, length-take n xs)

-- The one value of an answer.
ok-injective :
    (a b : List ℕ) (w w' : Blocks)
    → Path (Result String (List ℕ) × Blocks) (ok a, w) (ok b, w')
    → a ≡ b
ok-injective a b w w' e = cc

receive-length :
    (n : ℕ) (w w' : Blocks) (bytes : List ℕ) → receive n w ≡ (ok bytes, w') → length bytes ≤ n
unfolding receive
receive-length n [] w' bytes e =
    subst (λ b. length b ≤ n) (ok-injective [] bytes [] w' e) (omega arith)
receive-length n (block ∷ blocks) w' bytes e =
    subst (λ b. length b ≤ n) (ok-injective (take n block) bytes blocks w' e) (length-take n block)

receive_exact-length :
    (n : ℕ) (w w' : Blocks) (bytes : List ℕ) → receive_exact n w ≡ (ok bytes, w') → length bytes ≡ n
unfolding receive_exact
receive_exact-length n [] w' bytes e = absurd (cc)
receive_exact-length n (block ∷ blocks) w' bytes e = grind (arith, ==_iff (length block) n)

pub sample_external_laws : (known : List Address) → ExternalLaws (sample known)
sample_external_laws known = record {
  read-length = λ t. receive-length;
  read_exact-length = λ t. receive_exact-length;
}
