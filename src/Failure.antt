-- ===== src/Failure.antt =====
-- src/error.rs: the crate's error type. `X` is the type of the errors that other crates and the
-- operating system make. Beside it stand the two ways in which a run can end with no `Result`:
-- a panic, and a loop of the model that used up its fuel.
use quik.Base.{String, ℕ, List}

pub data ErrorKind : Type 0 where
  not_found connection_aborted : ErrorKind

-- `std::io::Error`: one of the system's, or one that the crate makes from a text, of which the tail
-- may be another error's text or the first line of what a peer sent.
pub data IoError (X : Type 0) : Type 0 where
  os : X → IoError X
  other : String → IoError X
  other_of : String → X → IoError X
  other_line : String → List ℕ → IoError X
  of_kind : ErrorKind → String → IoError X

pub data Error (X : Type 0) : Type 0 where
  tls_build tls_handshake http2 : X → Error X
  connect : IoError X → Error X
  verify : String → Error X
  invalid_url : String → Error X

pub data Failure (X : Type 0) : Type 0 where
  error : Error X → Failure X
  panicked : Failure X
  out_of_fuel : Failure X
