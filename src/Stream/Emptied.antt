-- ===== src/Stream/Emptied.antt =====
-- The last acknowledgement of a stream: the loop of `acknowledge` tests the front of a deque that it
-- has just emptied.
use oxen_libquic.Base.{
  ℕ, zero, suc, ◌-◌, ◌<◌, ◌≡◌, refl, none, List, [], ◌∷◌, arith, length, length-append, All,
  append-nil,
}
use oxen_libquic.Base.Outcome.{undefined}
use oxen_libquic.Stream.{Stream, acknowledge}
use oxen_libquic.Stream.Buffers.{Buffer, ack_loop, released}
use oxen_libquic.Stream.Contents.{contents}

abbrev NonEmpty : Buffer → Type 0
NonEmpty b = 0 < length b.view

-- The objects behind the buffers append nothing when they go.
abbrev pub quiet : ℕ → Unit {0} → Unit {0} × List Buffer
quiet k u = (u, [])

released-quiet : (b : Buffer) → (released quiet b.keep_alive tt).1 ≡ []
released-quiet b = ground arith

ack_loop_emptied :
    (fuel : ℕ) (bufs : List Buffer) (bytes : ℕ) (app : List Buffer)
    → length bufs < fuel
    → All NonEmpty bufs
    → bytes ≡ length (contents bufs)
    → ack_loop quiet none fuel bufs bytes tt app ≡ undefined
unfolding ack_loop
ack_loop_emptied zero bufs bytes app hf a e = elim hf [ ]
ack_loop_emptied (suc fuel) [] bytes app hf a e = refl
ack_loop_emptied (suc fuel) (b ∷ bs) bytes app hf a e = ground (
  arith,
  released-quiet b,
  append-nil bs,
  append-nil app,
  length-append b.view (contents bs),
  ack_loop_emptied fuel bs (bytes - length b.view) app (omega arith) a.1
      (omega (arith, length-append b.view (contents bs))),
)

-- When the peer acknowledges all the bytes of a queue, whose buffers are not empty and append
-- nothing when they go, the loop of `acknowledge`, with more fuel than there are buffers, reads the
-- front of an empty deque, which C++ leaves undefined.
pub acknowledge_emptied :
    (s : Stream) (fuel : ℕ)
    → length s.user_buffers < fuel
    → All NonEmpty s.user_buffers
    → acknowledge quiet none fuel s (length (contents s.user_buffers)) tt ≡ undefined
unfolding acknowledge
acknowledge_emptied s fuel hf a =
    rw (ack_loop_emptied fuel s.user_buffers (length (contents s.user_buffers)) [] hf a refl) refl
