-- ===== src/Mux/Writer/Order.antt =====
-- Each queue is served in order, and what of it reaches the wire.
use rxcore.Prelude.{
  ℕ, ◌+◌, ◌%◌, ◌^◌, ◌≡◌, refl, sym, ap, ◌∙◌, ◌⊎◌, inl, inr, List, [], ◌∷◌, ◌++◌, map, Bool, true,
  false, append_assoc, append-nil, subst, length, leb, leb→le, arith, Bool-cases,
}
use rxcore.Prelude.Loops.{concat, retain}
use rxcore.Mux.Frame.{MuxFrame, write_frame}
use rxcore.Mux.Frame.Wire.{header_bytes, write_frame_lem}
use rxcore.Mux.Writer.{
  Writer, Turn, takes_high, takes_low, waits, breaks, turn, Event, arrives_high, arrives_low,
  high_dropped, low_dropped, takes_turn, Sent, from_high, from_low, run_connection_writer,
}
use rxcore.Mux.Writer.Fair.{Steady, turn_low, turn_high}

abbrev pub sent_high : List Sent → List MuxFrame
sent_high [] = []
sent_high (from_high f ∷ s) = f ∷ sent_high s
sent_high (from_low f ∷ s) = sent_high s

abbrev pub sent_low : List Sent → List MuxFrame
sent_low [] = []
sent_low (from_high f ∷ s) = sent_low s
sent_low (from_low f ∷ s) = f ∷ sent_low s

abbrev pub arrived_high : List Event → List MuxFrame
arrived_high [] = []
arrived_high (arrives_high f ∷ es) = f ∷ arrived_high es
arrived_high (_ ∷ es) = arrived_high es

abbrev pub arrived_low : List Event → List MuxFrame
arrived_low [] = []
arrived_low (arrives_low f ∷ es) = f ∷ arrived_low es
arrived_low (_ ∷ es) = arrived_low es

abbrev pub IsAlive : Writer → Type 0
IsAlive w = (w.high_closed ≡ false) × (w.low_closed ≡ false)

-- A turn takes the head of one queue and leaves the other.
abbrev TakesHead : Writer → Turn → Type 0
TakesHead w (takes_high f w') = (w.high ≡ f ∷ w'.high) × (w.low ≡ w'.low) × IsAlive w'
TakesHead w (takes_low f w') = (w.low ≡ f ∷ w'.low) × (w.high ≡ w'.high) × IsAlive w'
TakesHead w waits = Unit
TakesHead w breaks = ⊥

turn_high_only :
    (w : Writer) (g : MuxFrame) (gs : List MuxFrame)
    → w.high ≡ g ∷ gs
    → w.low ≡ []
    → w.low_closed ≡ false
    → turn w
      ≡ takes_high g (record w { high = gs; consecutive_high = (w.consecutive_high + 1) % 2 ^ 32 })
unfolding turn
turn_high_only w g gs high low alive = ground arith

turn_waits : (w : Writer) → w.high ≡ [] → w.low ≡ [] → IsAlive w → turn w ≡ waits
unfolding turn
turn_waits w high low alive = ground arith

turn-TakesHead :
    (w : Writer) (hs ls : List MuxFrame)
    → w.high ≡ hs
    → w.low ≡ ls
    → IsAlive w
    → TakesHead w (turn w)
turn-TakesHead w [] [] high low a = rw (turn_waits w high low a) tt
turn-TakesHead w (g ∷ gs) [] high low a = rw (turn_high_only w g gs high low a.1) (high, refl, a)
turn-TakesHead w [] (f ∷ fs) high low a = rw (turn_low w f fs low a.0 (inr high)) (low, refl, a)
turn-TakesHead w (g ∷ gs) (f ∷ fs) high low a = elim (Bool-cases (leb 32 w.consecutive_high)) [
  | inl many ↦ rw (turn_low w f fs low a.0 (inl (ground arith))) (low, refl, a)
  | inr few ↦ rw (turn_high w g gs high (ground arith)) (high, refl, a)
]

-- The frames of a queue: what was taken of it and what is left are what stood there and came in.
abbrev pub InQueues : List Event → Writer → List Sent × Writer → Type 0
InQueues es w (sent, last) =
    (sent_high sent ++ last.high ≡ w.high ++ arrived_high es)
    × (sent_low sent ++ last.low ≡ w.low ++ arrived_low es)

abbrev pub frame_of : Sent → MuxFrame
frame_of (from_high f) = f
frame_of (from_low f) = f

-- The bytes that the calls of `write_frame` write.
unfoldable pub written : List Sent → List ℕ
unfolding write_frame
written [] = []
written (s ∷ sent) = write_frame (frame_of s) ++ written sent

-- A frame whose length has a place in the header, and its bytes.
abbrev pub fits : MuxFrame → Bool
fits f = leb (length f.payload) 65535

abbrev pub frame_bytes : MuxFrame → List ℕ
frame_bytes f = header_bytes f ++ f.payload

nothing_lem : (f : MuxFrame) → fits f ≡ false → write_frame f ≡ []
unfolding write_frame
nothing_lem f h = ground arith

written_lem :
    (sent : List Sent) → written sent ≡ concat (map frame_bytes (retain fits (map frame_of sent)))
unfolding written
written_lem [] = refl
written_lem (s ∷ sent) = elim (Bool-cases (fits (frame_of s))) [
  | inl e ↦
      rw (e, write_frame_lem (frame_of s) (leb→le (length (frame_of s).payload) 65535 e))
        (ap (λ l. frame_bytes (frame_of s) ++ l) (written_lem sent))
  | inr e ↦ rw (e, nothing_lem (frame_of s) e) (written_lem sent)
]

-- The queues, and the wire: in the order in which they were taken, the frames that fit.
abbrev pub InOrder : List Event → Writer → List Sent × Writer → Type 0
InOrder es w (sent, last) =
    InQueues es w (sent, last)
    × (written sent ≡ concat (map frame_bytes (retain fits (map frame_of sent))))

Turn-cases :
    (t : Turn)
    → ((f : MuxFrame) × (w : Writer) × (t ≡ takes_high f w))
      ⊎ (((f : MuxFrame) × (w : Writer) × (t ≡ takes_low f w)) ⊎ ((t ≡ waits) ⊎ (t ≡ breaks)))
Turn-cases (takes_high f w) = inl (f, w, refl)
Turn-cases (takes_low f w) = inr (inl (f, w, refl))
Turn-cases waits = inr (inr (inl refl))
Turn-cases breaks = inr (inr (inr refl))

run-InQueues :
    (es : List Event) (w : Writer)
    → IsAlive w
    → Steady es
    → InQueues es w (run_connection_writer es w)
unfolding run_connection_writer
run-InQueues [] w a st = (sym (append-nil w.high), sym (append-nil w.low))
run-InQueues (arrives_high f ∷ es) w a st =
    let (h, l) = run-InQueues es (record w { high = w.high ++ f ∷ [] }) a st in
    (h ∙ append_assoc w.high (f ∷ []) (arrived_high es), l)
run-InQueues (arrives_low f ∷ es) w a st =
    let (h, l) = run-InQueues es (record w { low = w.low ++ f ∷ [] }) a st in
    (h, l ∙ append_assoc w.low (f ∷ []) (arrived_low es))
run-InQueues (high_dropped ∷ es) w a st = absurd st
run-InQueues (low_dropped ∷ es) w a st = absurd st
run-InQueues (takes_turn false ∷ es) w a st = absurd st
run-InQueues (takes_turn true ∷ es) w a st = elim (Turn-cases (turn w)) [
  | inl (f, w', e) ↦
      let (head, other, alive) =
        subst (TakesHead w) e (turn-TakesHead w w.high w.low refl refl a) in
      let (h, l) = run-InQueues es w' alive st in
      rw (e, run_connection_writer) (rw (head, other) (ap (◌∷◌ f) h, l))
  | inr (inl (f, w', e)) ↦
      let (head, other, alive) =
        subst (TakesHead w) e (turn-TakesHead w w.high w.low refl refl a) in
      let (h, l) = run-InQueues es w' alive st in
      rw (e, run_connection_writer) (rw (head, other) (h, ap (◌∷◌ f) l))
  | inr (inr (inl e)) ↦ rw (e, run_connection_writer) (run-InQueues es w a st)
  | inr (inr (inr e)) ↦ absurd (subst (TakesHead w) e (turn-TakesHead w w.high w.low refl refl a))
]

-- While the senders live and no write fails, the writer takes the frames of each queue in the order
-- in which they came in, and every frame that came in has been taken or is still in its queue. Of the
-- frames taken, those with a payload of at most 65535 bytes stand on the wire, whole and in the order
-- in which they were taken, and nothing else does: a frame with a longer payload is taken and lost.
pub run_connection_writer-InOrder :
    (es : List Event) (w : Writer)
    → IsAlive w
    → Steady es
    → InOrder es w (run_connection_writer es w)
run_connection_writer-InOrder es w a st =
    (run-InQueues es w a st, written_lem (run_connection_writer es w).0)
