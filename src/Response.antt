-- ===== src/Response.antt =====
-- src/client/response.rs: a response and its body.
pub mod Body
pub mod Coding
pub mod Tests
use quik.Base.{ℕ, String, List}
use quik.Externals.{Externals}

module _ (x : Externals) where
  pub data ResponseBody : Type 0 where
    http2_body : x.RecvStream → ResponseBody
    http3_body : List ℕ → ResponseBody

  pub record Response : Type 0 where
    pub status : ℕ
    pub headers : x.http.HeaderMap
    pub body : ResponseBody
    pub url : String

  -- `Response::new`.
  abbrev pub new : ℕ → x.http.HeaderMap → ResponseBody → String → Response
  new status headers body url = record {
    status = status;
    headers = headers;
    body = body;
    url = url;
  }

  abbrev pub set_url : String → Response → Response
  set_url url r = record r { url = url }

  -- A request with no body of its own: what `http::Request<()>` holds here.
  pub record Request : Type 0 where
    pub method : String
    pub uri : String
    pub headers : x.http.HeaderMap
