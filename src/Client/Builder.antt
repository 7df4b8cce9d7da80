-- ===== src/Client/Builder.antt =====
-- src/client/pool.rs: how a builder of a client is filled, and `Client::new`.
use quik.Base.{String, Bool, false, none, some}
use quik.Externals.{Externals}
use quik.Lock.{Lock}
use quik.Profile.{ChromeProfile}
use quik.Profile.Draw.{Draw}
use quik.Proxy.{Proxy}
use quik.Client.{Client, ClientBuilder, build}

module _ (x : Externals) where
  open x use {World, CookieStore}

  -- `ClientBuilder::default`.
  unfoldable pub builder : ClientBuilder x
  builder = record {
    profile = none;
    proxy = none;
    cookie_store = none;
    danger_accept_invalid_certs = false;
  }

  unfoldable pub danger_accept_invalid_certs : Bool → ClientBuilder x → ClientBuilder x
  danger_accept_invalid_certs accept b = record b { danger_accept_invalid_certs = accept }

  unfoldable pub profile : ChromeProfile → ClientBuilder x → ClientBuilder x
  profile p b = record b { profile = some p }

  unfoldable pub proxy : Proxy → ClientBuilder x → ClientBuilder x
  proxy p b = record b { proxy = some p }

  unfoldable pub cookie_store : Lock CookieStore → ClientBuilder x → ClientBuilder x
  cookie_store store b = record b { cookie_store = some store }

  -- `build` answers no error, so that what `new` would do after one is never reached.
  unfoldable pub new : Draw → String → CookieStore → World → Client x
  unfolding builder
  new draw target_os no_cookies world = build x draw target_os no_cookies world builder
