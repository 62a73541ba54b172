-- ===== src/Mux/Stream/Content.antt =====
-- What is read from a virtual stream is what was delivered to it, in order.
use rxcore.Prelude.{
  ℕ, ◌≤◌, ◌<◌, ◌≡◌, refl, min, List, [], ◌∷◌, ◌++◌, append_assoc, subst, Option, none, some, length,
  take, drop, take-append-drop, length-take, arith, ltb, if◌then◌else◌, sym, ◌∙◌, ap, inl, inr,
  Option-cases,
}
use rxcore.Mux.Frame.{MuxFrame, write_frame}
use rxcore.Mux.Frame.Wire.{header_bytes}
use rxcore.Mux.Stream.{
  VirtualStream, ReadPoll, ready, serve, receive, poll_read, has_room, accepted, poll_write,
  non_empty,
}

-- The chunks of a queue up to the first close mark.
abbrev pub until_close : List (List ℕ) → List ℕ
until_close [] = []
until_close ([] ∷ queue) = []
until_close ((b ∷ bs) ∷ queue) = (b ∷ bs) ++ until_close queue

abbrev pub chunk_bytes : Option (List ℕ) → List ℕ
chunk_bytes none = []
chunk_bytes (some chunk) = chunk

-- The bytes that a reader of the stream is still to see.
abbrev pub content : VirtualStream → List ℕ
content s = chunk_bytes s.current_read_chunk ++ until_close s.rx_data.queue

-- The current chunk is never empty.
abbrev pub IsStream : VirtualStream → Type 0
IsStream s = (chunk : List ℕ) → s.current_read_chunk ≡ some chunk → 0 < length chunk

-- A read that takes some bytes off the front of `before`: as many as fit, and at least one if there
-- is room for one.
abbrev pub TakesFront : ℕ → List ℕ → ReadPoll × VirtualStream → Type 0
TakesFront remaining before (r, s) =
    (bytes : List ℕ) × (r ≡ ready bytes)
    × (before ≡ bytes ++ content s)
    × (length bytes ≤ remaining)
    × (min 1 remaining ≤ length bytes)
    × IsStream s

chunk_bytes-non_empty : (l : List ℕ) → chunk_bytes (non_empty l) ≡ l
chunk_bytes-non_empty [] = refl
chunk_bytes-non_empty (b ∷ bs) = refl

non_empty-some : (l chunk : List ℕ) → non_empty l ≡ some chunk → 0 < length chunk
non_empty-some [] chunk e = cc
non_empty-some (b ∷ bs) chunk e = ground arith

serve-TakesFront :
    (b : ℕ) (bs : List ℕ) (remaining : ℕ) (s : VirtualStream)
    → TakesFront remaining ((b ∷ bs) ++ until_close s.rx_data.queue) (serve (b ∷ bs) remaining s)
unfolding serve
serve-TakesFront b bs remaining s =
    let n = min (length (b ∷ bs)) remaining in
    (
      take n (b ∷ bs),
      refl,
      rw (chunk_bytes-non_empty (drop n (b ∷ bs))) (
          ap (λ l. l ++ until_close s.rx_data.queue) (sym (take-append-drop n (b ∷ bs)))
          ∙ append_assoc (take n (b ∷ bs)) (drop n (b ∷ bs)) (until_close s.rx_data.queue)),
      omega (arith, length-take n (b ∷ bs)),
      omega (arith, length-take n (b ∷ bs)),
      non_empty-some (drop n (b ∷ bs)),
    )

receive-TakesFront :
    (queue : List (List ℕ)) (remaining : ℕ) (s : VirtualStream)
    → 0 < length (until_close queue)
    → TakesFront remaining (until_close queue) (receive queue remaining s)
unfolding receive
receive-TakesFront [] remaining s h = elim h [ ]
receive-TakesFront ([] ∷ queue) remaining s h = elim h [ ]
receive-TakesFront ((b ∷ bs) ∷ queue) remaining s h =
    serve-TakesFront b bs remaining (record s { rx_data = record (s.rx_data) { queue = queue } })

-- A read of a virtual stream that still has content is ready with bytes off its front, as many as
-- fit the caller's buffer and at least one if that is not empty, and leaves the rest: no byte is
-- lost, doubled or moved, however the frames were cut.
pub poll_read-TakesFront :
    (remaining : ℕ) (s : VirtualStream)
    → IsStream s
    → 0 < length (content s)
    → TakesFront remaining (content s) (poll_read remaining s)
unfolding poll_read
poll_read-TakesFront remaining s v h = elim (Option-cases s.current_read_chunk) [
  | inl e ↦
      rw (e, poll_read)
        (receive-TakesFront s.rx_data.queue remaining s
          (subst (λ o. 0 < length (chunk_bytes o ++ until_close s.rx_data.queue)) e h))
  | inr (chunk, e) ↦ rw (e, poll_read) (from_chunk chunk (v chunk e))
]
  where
    from_chunk :
        (chunk : List ℕ)
        → 0 < length chunk
        → TakesFront remaining (chunk ++ until_close s.rx_data.queue) (serve chunk remaining s)
    from_chunk [] h = elim h [ ]
    from_chunk (b ∷ bs) h = serve-TakesFront b bs remaining s

-- A write to a virtual stream is answered with the whole length of the buffer. A buffer of at most
-- 65535 bytes then goes out behind a header; of a longer one the writer sends nothing.
pub poll_write-write_frame :
    (buf : List ℕ) (s : VirtualStream)
    → (f : MuxFrame) × (poll_write has_room buf s ≡ accepted (length buf) f)
      × (write_frame f ≡ (if ltb 65535 (length buf) then [] else header_bytes f ++ buf))
unfolding poll_write write_frame
poll_write-write_frame buf s = (_, refl, ground arith)
