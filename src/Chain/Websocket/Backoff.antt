-- ===== src/Chain/Websocket/Backoff.antt =====
-- How often the loop of reconnections tries, and how long it waits.

use vendor.Base.{
  inl, inr, ℕ, zero, suc, ◌+◌, ◌*◌, ◌<◌, ◌≡◌, refl, sym, ap, ◌∙◌, min, List, [], ◌∷◌, ◌++◌, true,
  false, leb, ok, err, is_err, is_ok, length, All, arith, append_assoc, append-nil, Result-cases,
}
use vendor.Chain.Listener.{connection_lost, Listener, disconnected}
use vendor.Chain.Websocket.{Connection, Attempts, connecting_state, websocket_loop}

-- The next `n` pauses: the first is `delay`, also where that is more than `max_delay`, and each
-- later one twice the one before, but at most `max_delay`.
abbrev pub pauses : (max_delay n delay : ℕ) → List ℕ
pauses max_delay zero delay = []
pauses max_delay (suc n) delay = delay ∷ pauses max_delay n (min (delay * 2) max_delay)

-- A connection leaves the count of failures to the loop.
abbrev pub KeepsCount : Connection → Type 0
KeepsCount connect =
    (l : Listener) → (connect l).1.consecutive_ws_failures ≡ l.consecutive_ws_failures

abbrev pub AlwaysFails : Connection → Type 0
AlwaysFails connect = KeepsCount connect × ((l : Listener) → is_err (connect l).0 ≡ true)

abbrev pub NeverFails : Connection → Type 0
NeverFails connect = (l : Listener) → is_ok (connect l).0 ≡ true

module _ (threshold max_delay : ℕ) where
  -- What a run that gives up after `left` more failures looks like.
  abbrev pub GivesUp : ℕ → ℕ → List ℕ → Attempts → Type 0
  GivesUp left delay delays out =
      (out.result ≡ err (connection_lost threshold))
      × (out.listener.consecutive_ws_failures ≡ threshold)
      × (out.delays ≡ delays ++ pauses max_delay left delay)

  -- Where every connection fails and the threshold is not reached yet, the loop ends: it tries as
  -- often as failures are missing and waits after each, first for the delay it starts with, then
  -- for twice as long each time but at most for `max_delay`, and gives the connection up with
  -- exactly `threshold` failures. The first wait is not limited by `max_delay`.
  pub websocket_loop-GivesUp :
      (left : ℕ) (connects : List Connection) (delay : ℕ) (l : Listener) (delays : List ℕ)
      → l.consecutive_ws_failures + left ≡ threshold
      → left < length connects
      → All AlwaysFails connects
      → GivesUp left delay delays (websocket_loop threshold max_delay connects delay l delays)
  unfolding websocket_loop
  websocket_loop-GivesUp left [] delay l delays count long fail = absurd (omega arith)
  websocket_loop-GivesUp zero (c ∷ cs) delay l delays count long fail =
      let at_end : l.consecutive_ws_failures ≡ threshold = omega arith in
      let test : leb threshold l.consecutive_ws_failures ≡ true = ground arith in
      rw (test, websocket_loop)
        (ap (λ n. err (connection_lost n)) at_end, at_end, sym (append-nil delays))
  websocket_loop-GivesUp (suc left) (c ∷ cs) delay l delays count long ((keeps, fails), rest) =
      let start : Listener = record l { state = connecting_state l.consecutive_ws_failures } in
      let test : leb threshold l.consecutive_ws_failures ≡ false = ground arith in
      let kept = keeps start in
      elim (Result-cases (c start).0) [
        | inl (x, e) ↦ cc (fails start, e)
        | inr (error, e) ↦
            let after : Listener = record (c start).1 {
              consecutive_ws_failures = (c start).1.consecutive_ws_failures + 1;
              state = disconnected;
            } in
            let ih =
              websocket_loop-GivesUp left cs (min (delay * 2) max_delay) after
                (delays ++ delay ∷ []) (omega arith) (omega arith) rest in
            rw (test, websocket_loop, e)
              (
                ih.0,
                ih.1,
                ih.2
                    ∙ append_assoc delays (delay ∷ [])
                        (pauses max_delay left (min (delay * 2) max_delay)),
              )
      ]

  -- Where every connection is made, the loop goes on, whatever happens to the connections later:
  -- below the threshold it never gives the WebSocket up and never waits, however many connections
  -- are closed at once.
  pub websocket_loop-never_pauses :
      (connects : List Connection) (delay : ℕ) (l : Listener) (delays : List ℕ)
      → l.consecutive_ws_failures < threshold
      → All NeverFails connects
      → ((websocket_loop threshold max_delay connects delay l delays).result ≡ ok tt)
        × ((websocket_loop threshold max_delay connects delay l delays).delays ≡ delays)
  unfolding websocket_loop
  websocket_loop-never_pauses [] delay l delays low made = (refl, refl)
  websocket_loop-never_pauses (c ∷ cs) delay l delays low (made, rest) =
      let start : Listener = record l { state = connecting_state l.consecutive_ws_failures } in
      let test : leb threshold l.consecutive_ws_failures ≡ false = ground arith in
      elim (Result-cases (c start).0) [
        | inr (x, e) ↦ cc (made start, e)
        | inl (x, e) ↦
            rw (test, websocket_loop, e)
              (websocket_loop-never_pauses cs 1000
                (record (c start).1 { consecutive_ws_failures = 0; state = disconnected }) delays
                (omega arith) rest)
      ]
