-- ===== src/Mux/Writer/Fair.antt =====
-- Neither queue waits for ever, and neither is reordered.
use rxcore.Prelude.{
  ℕ, suc, ◌+◌, ◌≤◌, ◌<◌, ◌≡◌, refl, ap, ◌⊎◌, inl, inr, List, [], ◌∷◌, ◌++◌, Bool, true, false, leb,
  arith, Bool-cases,
}
use rxcore.Prelude.Loops.{any}
use rxcore.Mux.Frame.{MuxFrame}
use rxcore.Mux.Writer.{
  Writer, takes_high, takes_low, turn, Event, arrives_high, arrives_low, high_dropped, low_dropped,
  takes_turn, Sent, from_high, from_low, run_connection_writer,
}

-- No sender goes away and no write fails.
abbrev pub Steady : List Event → Type 0
Steady [] = Unit
Steady (high_dropped ∷ es) = ⊥
Steady (low_dropped ∷ es) = ⊥
Steady (takes_turn false ∷ es) = ⊥
Steady (_ ∷ es) = Steady es

abbrev pub turns : List Event → ℕ
turns [] = 0
turns (takes_turn ok ∷ es) = suc (turns es)
turns (_ ∷ es) = turns es

abbrev pub is_low : Sent → Bool
is_low (from_high f) = false
is_low (from_low f) = true

-- With a low frame waiting and the senders alive, a turn takes it when 32 high frames have gone
-- before it or no high frame waits; else it takes a high frame and counts it.
pub turn_low :
    (w : Writer) (f : MuxFrame) (fs : List MuxFrame)
    → w.low ≡ f ∷ fs
    → w.high_closed ≡ false
    → (32 ≤ w.consecutive_high) ⊎ (w.high ≡ [])
    → turn w ≡ takes_low f (record w { low = fs; consecutive_high = 0 })
unfolding turn
turn_low w f fs low alive h = ground arith

pub turn_high :
    (w : Writer) (g : MuxFrame) (gs : List MuxFrame)
    → w.high ≡ g ∷ gs
    → w.consecutive_high < 32
    → turn w ≡ takes_high g (record w { high = gs; consecutive_high = w.consecutive_high + 1 })
unfolding turn
turn_high w g gs high few = ground arith

turn_cases :
    (w : Writer) (f : MuxFrame) (fs hs : List MuxFrame)
    → w.high ≡ hs
    → w.low ≡ f ∷ fs
    → w.high_closed ≡ false
    → (turn w ≡ takes_low f (record w { low = fs; consecutive_high = 0 }))
      ⊎ ((g : MuxFrame) × (gs : List MuxFrame) × (w.consecutive_high < 32)
          × (turn w
              ≡ takes_high g (record w { high = gs; consecutive_high = w.consecutive_high + 1 })))
turn_cases w f fs [] high low alive = inl (turn_low w f fs low alive (inr high))
turn_cases w f fs (g ∷ gs) high low alive = elim (Bool-cases (leb 32 w.consecutive_high)) [
  | inl many ↦ inl (turn_low w f fs low alive (inl (ground arith)))
  | inr few ↦ inr (g, gs, ground arith, turn_high w g gs high (ground arith))
]

-- A waiting TCP frame is not starved: while the senders live and no write fails, among any 33 turns
-- of the loop, less the UDP frames that have already been counted in a row, one takes a TCP frame,
-- however many UDP frames come in.
pub low_not_starved :
    (es : List Event) (w : Writer) (f : MuxFrame) (fs : List MuxFrame)
    → w.low ≡ f ∷ fs
    → w.high_closed ≡ false
    → Steady es
    → 33 ≤ w.consecutive_high + turns es
    → 1 ≤ turns es
    → any is_low (run_connection_writer es w).0 ≡ true
unfolding run_connection_writer
low_not_starved [] w f fs low alive st h k = absurd (omega arith)
low_not_starved (arrives_high g ∷ es) w f fs low alive st h k =
    low_not_starved es _ f fs low alive st h k
low_not_starved (arrives_low g ∷ es) w f fs low alive st h k =
    low_not_starved es _ f (fs ++ g ∷ []) (ap (λ l. l ++ g ∷ []) low) alive st h k
low_not_starved (high_dropped ∷ es) w f fs low alive st h k = absurd st
low_not_starved (low_dropped ∷ es) w f fs low alive st h k = absurd st
low_not_starved (takes_turn false ∷ es) w f fs low alive st h k = absurd st
low_not_starved (takes_turn true ∷ es) w f fs low alive st h k =
    elim (turn_cases w f fs w.high refl low alive) [
      | inl e ↦ rw (e, run_connection_writer) refl
      | inr (g, gs, few, e) ↦
          rw (e, run_connection_writer)
            (low_not_starved es (record w { high = gs; consecutive_high = w.consecutive_high + 1 })
              f fs low alive st (omega arith) (omega arith))
    ]
