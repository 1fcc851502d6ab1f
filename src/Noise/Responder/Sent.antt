-- ===== src/Noise/Responder/Sent.antt =====
-- What the writes of crates/noise/src/responder.rs have sent where they succeed.
use oxiscale.Prelude.{
  ℕ, ◌≡◌, refl, sym, ap, ◌∙◌, List, [], ◌++◌, Result, ok, err, append_assoc, append-nil,
}
use oxiscale.Store.Types.{IoError}
use oxiscale.Noise.Ts.{Ts, Socket, IsSocket}
use oxiscale.Noise.Error.{NoiseError, io}
use oxiscale.Noise.Responder.{
  Sending, ◌>>◌, send, flush_socket, send_response, response_header, sending, and_then,
}

module _ (ts : Ts) (socket : Socket) (laws : IsSocket socket) where
  open socket use {State, write_all, flush}
  open laws use {sent}

  -- Where the sending succeeds, it has sent these bytes.
  pub record Sends (m : Sending ts socket) (bytes : List ℕ) : Type 0 where
    pub at : (s s' : State) → m s ≡ (ok tt, s') → sent s' ≡ sent s ++ bytes

  sending_ok :
      (q : Result IoError (Unit {0}) × State) (s' : State)
      → sending ts socket q ≡ (ok tt, s')
      → q ≡ (ok tt, s')
  unfolding sending
  sending_ok (ok u, s) s' e = ap (λ p. (ok tt, p.1)) e
  sending_ok (err x, s) s' e = cc (ap (λ p. p.0) e)

  Sends-send : (bytes : List ℕ) → Sends (send ts socket bytes) bytes
  unfolding send
  Sends-send bytes = record {
    at = λ s s' e. laws.write_all_sends bytes s s' (sending_ok (write_all bytes s) s' e);
  }

  Sends-flush : Sends (flush_socket ts socket) []
  unfolding flush_socket
  Sends-flush = record {
    at = λ s s' e. laws.flush_sends s s' (sending_ok (flush s) s' e) ∙ sym (append-nil (sent s));
  }

  then_ok :
      (n : Sending ts socket) (q : Result (NoiseError ts) (Unit {0}) × State) (s' : State)
      → and_then ts socket q n ≡ (ok tt, s')
      → (q ≡ (ok tt, q.1)) × (n q.1 ≡ (ok tt, s'))
  unfolding and_then
  then_ok n (ok u, s) s' e = (refl, e)
  then_ok n (err x, s) s' e = cc (ap (λ p. p.0) e)

  Sends-then :
      (m n : Sending ts socket) (x y : List ℕ)
      → Sends m x
      → Sends n y
      → Sends (◌>>◌ ts socket m n) (x ++ y)
  unfolding ◌>>◌
  Sends-then m n x y hm hn = record {
    at = λ s s' e.
        let (first, second) = then_ok n (m s) s' e in
        hn.at (m s).1 s' second
        ∙ ap (λ z. z ++ y) (hm.at s (m s).1 first)
        ∙ append_assoc (sent s) x y;
  }

  pub Sends-send_response :
      (resp : List ℕ) → Sends (send_response ts socket resp) (response_header ts socket ++ resp)
  unfolding send_response
  Sends-send_response resp =
      let body : Sends (◌>>◌ ts socket (send ts socket resp) (flush_socket ts socket)) resp =
        rw append-nil at (
          Sends-then (send ts socket resp) (flush_socket ts socket) resp [] (Sends-send resp)
            Sends-flush) in
      Sends-then (send ts socket (response_header ts socket)) _ (response_header ts socket) resp
        (Sends-send (response_header ts socket)) body

  pub Sends-frame :
      (bytes : List ℕ)
      → Sends (◌>>◌ ts socket (send ts socket bytes) (flush_socket ts socket)) bytes
  Sends-frame bytes = rw append-nil at (
      Sends-then (send ts socket bytes) (flush_socket ts socket) bytes [] (Sends-send bytes)
        Sends-flush)

module _ (ts : Ts) (socket : Socket) where
  open socket use {State, write_all, flush}

  -- A sending fails with nothing but an error of the socket.
  abbrev OnlyIo : Result (NoiseError ts) (Unit {0}) × State → Type 0
  OnlyIo (ok _, s) = Unit
  OnlyIo (err e, s) = (x : IoError) × (e ≡ io x)

  OnlyIo-sending : (q : Result IoError (Unit {0}) × State) → OnlyIo (sending ts socket q)
  unfolding sending
  OnlyIo-sending (ok u, s) = tt
  OnlyIo-sending (err x, s) = (x, refl)

  OnlyIo-then :
      (n : Sending ts socket) (q : Result (NoiseError ts) (Unit {0}) × State)
      → OnlyIo q
      → ((s : State) → OnlyIo (n s))
      → OnlyIo (and_then ts socket q n)
  unfolding and_then
  OnlyIo-then n (ok u, s) h k = k s
  OnlyIo-then n (err x, s) h k = h

  OnlyIo->> :
      (m n : Sending ts socket)
      → ((s : State) → OnlyIo (m s))
      → ((s : State) → OnlyIo (n s))
      → (s : State) → OnlyIo (◌>>◌ ts socket m n s)
  unfolding ◌>>◌
  OnlyIo->> m n hm hn s = OnlyIo-then n (m s) (hm s) hn

  OnlyIo-send : (bytes : List ℕ) (s : State) → OnlyIo (send ts socket bytes s)
  unfolding send
  OnlyIo-send bytes s = OnlyIo-sending (write_all bytes s)

  OnlyIo-flush : (s : State) → OnlyIo (flush_socket ts socket s)
  unfolding flush_socket
  OnlyIo-flush s = OnlyIo-sending (flush s)

  OnlyIo-send_response : (resp : List ℕ) (s : State) → OnlyIo (send_response ts socket resp s)
  unfolding send_response
  OnlyIo-send_response resp =
      OnlyIo->> (send ts socket (response_header ts socket))
        (◌>>◌ ts socket (send ts socket resp) (flush_socket ts socket))
        (OnlyIo-send (response_header ts socket))
        (OnlyIo->> (send ts socket resp) (flush_socket ts socket) (OnlyIo-send resp) OnlyIo-flush)

  OnlyIo-err :
      (q : Result (NoiseError ts) (Unit {0}) × State) (e : NoiseError ts)
      → OnlyIo q
      → q.0 ≡ err e
      → (x : IoError) × (e ≡ io x)
  OnlyIo-err (ok u, s) e h p = cc
  OnlyIo-err (err y, s) e (x, is_io) p = (x, cc)

  pub send_response-io :
      (resp : List ℕ) (s : State) (e : NoiseError ts)
      → (send_response ts socket resp s).0 ≡ err e
      → (x : IoError) × (e ≡ io x)
  send_response-io resp s e =
      OnlyIo-err (send_response ts socket resp s) e (OnlyIo-send_response resp s)
