-- ===== src/Stream/Pending.antt =====
-- `pending` against the bytes of the queue.
use oxen_libquic.Base.{
  ℕ, ◌-◌, ◌≤◌, ◌<◌, ◌≡◌, refl, sym, ap, ◌∙◌, List, [], ◌∷◌, ◌++◌, true, false, not, ◌&&◌, ◌||◌, inl,
  inr, Bool-cases, arith, length, length-append, drop, drop-append_le, drop-append_ge, drop_all,
  leb, ◌==◌,
}
use oxen_libquic.Base.Outcome.{done}
use oxen_libquic.Stream.Buffers.{Buffer, views, get_buffer_it, from_iterator}
use oxen_libquic.Stream.{Stream, unsent, pending, is_empty}
use oxen_libquic.Stream.Contents.{contents, concat, concat-views, IsValid, unsent-contents}

-- A result that has not come to the end, and spans the bytes from the offset on.
record Found (bs : List Buffer) (off : ℕ) : Type 0 where
  front : Buffer
  rest : List Buffer
  inner : ℕ
  result : get_buffer_it bs off ≡ done (front ∷ rest, inner)
  spans : drop inner front.view ++ contents rest ≡ drop off (contents bs)

get_buffer_it-Found : (bs : List Buffer) (off : ℕ) → off < length (contents bs) → Found bs off
unfolding get_buffer_it
get_buffer_it-Found [] off h = absurd (omega arith)
get_buffer_it-Found (b ∷ bs) off h = elim (Bool-cases (leb (length b.view) off && not (off == 0))) [
  | inl past ↦
      let r : Found bs (off - length b.view) =
        get_buffer_it-Found bs (off - length b.view)
          (ground (arith, length-append b.view (contents bs))) in
      record {
        front = r.front;
        rest = r.rest;
        inner = r.inner;
        result = rw past r.result;
        spans = r.spans ∙ sym (drop-append_ge off b.view (contents bs) (ground arith));
      }
  | inr here ↦ record {
    front = b;
    rest = bs;
    inner = off;
    result = rw here;
    spans = sym (drop-append_le off b.view (contents bs) (ground arith));
  }
]

is_empty-contents : (bs : List Buffer) → is_empty bs ≡ true → contents bs ≡ []
unfolding is_empty
is_empty-contents [] h = refl
is_empty-contents (b ∷ bs) h = cc

nothing_left :
    (s : Stream)
    → IsValid s
    → (is_empty s.user_buffers || (unsent s == 0)) ≡ true
    → length (contents s.user_buffers) ≤ s.unacked_size
nothing_left s v h = elim (Bool-cases (is_empty s.user_buffers)) [
  | inl e ↦ omega (arith, ap length (is_empty-contents s.user_buffers e))
  | inr e ↦ ground (arith, unsent-contents s v)
]

something_left :
    (s : Stream)
    → IsValid s
    → (is_empty s.user_buffers || (unsent s == 0)) ≡ false
    → s.unacked_size < length (contents s.user_buffers)
something_left s v h = ground (arith, unsent-contents s v)

-- On a valid stream, where no more is unacknowledged than the queue holds and that is less than
-- 2^64 bytes, `pending` never reads past the end of the queue, and hands ngtcp2 exactly the unsent
-- bytes.
pub pending-contents :
    (s : Stream)
    → IsValid s
    → (vs : List (List ℕ)) × (pending s ≡ done vs)
      × (concat vs ≡ drop s.unacked_size (contents s.user_buffers))
unfolding pending from_iterator
pending-contents s v = elim (Bool-cases (is_empty s.user_buffers || (unsent s == 0))) [
  | inl nothing ↦ ([], rw (nothing, pending), sym (drop_all _ _ (nothing_left s v nothing)))
  | inr more ↦
      let r : Found s.user_buffers s.unacked_size =
        get_buffer_it-Found s.user_buffers s.unacked_size (something_left s v more) in
      (
        drop r.inner r.front.view ∷ views r.rest,
        rw (more, r.result),
        ap (λ t. drop r.inner r.front.view ++ t) (concat-views r.rest) ∙ r.spans,
      )
]
