-- ===== src/Handshake.antt =====
-- src/http2/handshake.rs: the calls that configure the HTTP/2 builder, in their order.
use quik.Base.{List, [], ◌∷◌, map}
use quik.Calls.{
  header_table_size, enable_push, initial_window_size, max_header_list_size, PseudoId, Http2Call,
  settings_order, set_header_table_size, set_enable_push, set_initial_window_size,
  set_max_header_list_size, set_initial_connection_window_size, headers_pseudo_order,
  headers_stream_dependency,
}
use quik.Profile.{Http2Profile, PseudoOrder}

unfoldable pub pseudo_id : PseudoOrder → PseudoId
pseudo_id PseudoOrder.method = PseudoId.method
pseudo_id PseudoOrder.authority = PseudoId.authority
pseudo_id PseudoOrder.scheme = PseudoId.scheme
pseudo_id PseudoOrder.path = PseudoId.path

-- The stream that a request depends on is stream 0, whatever the profile's `dep` says.
unfoldable pub configure_builder : Http2Profile → List Http2Call
unfolding pseudo_id
configure_builder profile =
    settings_order
      (header_table_size ∷ enable_push ∷ initial_window_size ∷ max_header_list_size ∷ [])
    ∷ set_header_table_size profile.settings.header_table_size
    ∷ set_enable_push profile.settings.enable_push
    ∷ set_initial_window_size profile.settings.initial_window_size
    ∷ set_max_header_list_size profile.settings.max_header_list_size
    ∷ set_initial_connection_window_size profile.initial_connection_window_size
    ∷ headers_pseudo_order (map pseudo_id profile.pseudo_order)
    ∷ headers_stream_dependency 0 profile.headers_priority.weight profile.headers_priority.exclusive
    ∷ []
