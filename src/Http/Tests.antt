-- ===== src/Http/Tests.antt =====
-- The HTTP edge of crates/control-core/src/server/mod.rs with a tunnel that keeps what is written,
-- and the theorems at concrete inputs.
use oxiscale.Prelude.{ℕ, ◌≡◌, ◌↔◌, refl, sym, ap, none, some, List, [], ◌∷◌, ◌++◌, ok}
use oxiscale.Noise.Ts.{IsSocket}
use oxiscale.Noise.Responder.{
  ◌>>◌, and_then, sending, send_json, send, flush_socket, early_noise_frame, write_early_noise,
}
use oxiscale.Noise.Responder.Tests.{
  small_ts, small_IsTs, open_socket, open_IsSocket, open_IsOpen, payload, hello, hello_decodes,
  hello-IsInitiation, hello_accepted,
}
use oxiscale.Http.{
  Request, plain, MachineKeyPair, switching_protocols, ts2021_upgrade, has_upgrade, NoiseStream,
  Tunnel, stream_socket, stream_dropped, handshake_done, early_written, connection_served,
  run_noise_connection,
}
use oxiscale.Http.Served.{
  Asks, Served, ts2021_upgrade_iff, run_noise_connection-Served, IsHealthy,
  run_noise_connection_completes,
}

abbrev Stream : Type 0
Stream = NoiseStream small_ts open_socket

abbrev append : List ℕ → Stream → Stream
append bytes stream = record {
  inner = (stream.inner.0 ++ bytes, stream.inner.1);
  chunk = stream.chunk;
}

abbrev open_tunnel : Tunnel small_ts open_socket
open_tunnel = record {
  write_all = λ bytes stream. (ok tt, append bytes stream);
  flush = λ stream. (ok tt, stream);
  serve_connection = λ stream. (ok tt, stream);
}

tunnel-IsSocket : IsSocket (stream_socket small_ts open_socket open_tunnel)
tunnel-IsSocket = record {
  sent = λ stream. stream.inner.0;
  write_all_sends = λ bytes s s' e. sym (ap (λ r. r.1.inner.0) e);
  flush_sends = λ s s' e. sym (ap (λ r. r.1.inner.0) e);
}

abbrev server_key : MachineKeyPair small_ts
server_key = record { private = 9; public = 10 }

abbrev served_stream : Stream
served_stream = record {
  inner = (
    2 ∷ 0 ∷ 2 ∷ 3 ∷ 5 ∷ 0xff ∷ 0xff ∷ 0xff ∷ b'T' ∷ b'S' ∷ 0 ∷ 0 ∷ 0 ∷ 3 ∷ b'{' ∷ 8 ∷ b'}' ∷ [],
    6,
  );
  chunk = none;
}

hello_served :
    run_noise_connection small_ts open_socket open_tunnel 5 6 [] server_key hello
    ≡ (some (ok tt), stream_dropped served_stream)
unfolding run_noise_connection handshake_done early_written connection_served write_early_noise
    send_json early_noise_frame ◌>>◌ and_then send flush_socket sending
hello_served = ap (handshake_done small_ts open_socket open_tunnel) hello_accepted

run_noise_connection-Served_example :
    Served small_ts open_socket open_tunnel open_IsSocket tunnel-IsSocket 5 6 [] server_key hello
      (stream_dropped served_stream)
run_noise_connection-Served_example =
    run_noise_connection-Served small_ts open_socket open_tunnel open_IsSocket tunnel-IsSocket 5 6
      [] server_key hello (stream_dropped served_stream) small_IsTs hello_served

small-IsHealthy : IsHealthy small_ts open_socket open_tunnel
small-IsHealthy = record {
  socket_opens = open_IsOpen;
  stream_opens = record { writes = λ bytes s. refl; flushes = λ s. refl };
  serializes = λ frame. (b'{' ∷ frame.node_key_challenge ∷ b'}' ∷ [], refl);
  serves = λ stream. refl;
}

run_noise_connection_completes_example :
    (run_noise_connection small_ts open_socket open_tunnel 5 6 [] server_key hello).0 ≡ some (ok tt)
run_noise_connection_completes_example =
    run_noise_connection_completes small_ts open_socket open_tunnel 5 6 [] server_key hello hello
      payload 113 (1 ∷ 2 ∷ 3 ∷ []) small_IsTs small-IsHealthy hello_decodes hello-IsInitiation refl

abbrev upgrade_request : Request
upgrade_request = record { upgrade = some (b'x' ∷ []); handshake = some hello }

ts2021_upgrade_iff_example :
    (ts2021_upgrade some upgrade_request ≡ (switching_protocols, some hello))
    ↔ Asks some upgrade_request hello
ts2021_upgrade_iff_example = ts2021_upgrade_iff some upgrade_request hello

without_upgrade :
    ts2021_upgrade some (record { upgrade = none; handshake = some hello })
    ≡ (plain 500 "missing upgrade header", none)
unfolding ts2021_upgrade has_upgrade
without_upgrade = refl

empty_upgrade :
    ts2021_upgrade some (record { upgrade = some []; handshake = some hello })
    ≡ (plain 500 "missing upgrade header", none)
unfolding ts2021_upgrade has_upgrade
empty_upgrade = refl

without_handshake :
    ts2021_upgrade some (record { upgrade = some (b'x' ∷ []); handshake = none })
    ≡ (plain 400 "missing handshake header", none)
unfolding ts2021_upgrade has_upgrade
without_handshake = refl
