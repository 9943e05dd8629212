-- ===== src/Stream/Buffers.antt =====
-- include/quic/stream.hpp and src/stream.cpp: the queue `user_buffers` and the loops over it,
-- without the flags of a stream.
use oxen_libquic.Base.{
  ℕ, zero, suc, ◌-◌, not, ◌&&◌, Option, none, some, List, [], ◌∷◌, ◌++◌, leb, ◌==◌, if◌then◌else◌,
  length, drop, add_size,
}
use oxen_libquic.Base.Outcome.{Outcome, done, undefined, out_of_fuel}

-- One element of `user_buffers`: the bytes that the view spans, and the object that keeps them
-- alive, by a number.
pub record Buffer : Type 0 where
  pub view : List ℕ
  pub keep_alive : Option ℕ

-- `Stream::size()`.
unfoldable pub size : List Buffer → ℕ
size [] = 0
size (b ∷ bs) = add_size (length b.view) (size bs)

-- `get_buffer_it`: the buffers from the iterator on, and the offset. The loop's test reads the
-- iterator before it compares it with the end.
unfoldable pub get_buffer_it : List Buffer → ℕ → Outcome (List Buffer × ℕ)
get_buffer_it [] offset = undefined
get_buffer_it (b ∷ bs) offset =
    if leb (length b.view) offset && not (offset == 0)
    then get_buffer_it bs (offset - length b.view)
    else done (b ∷ bs, offset)

abbrev pub views : List Buffer → List (List ℕ)
views [] = []
views (b ∷ bs) = b.view ∷ views bs

-- The vectors that `pending` builds from the iterator and the offset.
unfoldable pub from_iterator : List Buffer × ℕ → Outcome (List (List ℕ))
from_iterator ([], offset) = undefined
from_iterator (b ∷ bs, offset) = done (drop offset b.view ∷ views bs)

-- `release` is what the destructor of a kept object does: it may append to the stream. A view with
-- no such object releases nothing.
abbrev pub released : {S : Type 0} → (ℕ → S → S × List Buffer) → Option ℕ → S → S × List Buffer
released release none s = (s, [])
released release (some k) s = release k s

-- What a call of `acknowledge` leaves of the queue, the state behind the destructors, the bytes that
-- are still to be taken off, and what the destructors have appended.
pub record Left (S : Type 0) : Type 0 where
  pub bufs : List Buffer
  pub bytes : ℕ
  pub owner : S
  pub appended : List Buffer

-- `empty_front` is what `front().first.size()` reads on an empty deque: the call is undefined
-- (`none`), or an implementation reads some number.
module _ {S : Type 0} (release : ℕ → S → S × List Buffer) (empty_front : Option ℕ) where
  -- The loop of `acknowledge`.
  unfoldable pub ack_loop : ℕ → List Buffer → ℕ → S → List Buffer → Outcome (Left S)
  ack_loop zero bufs bytes s app = out_of_fuel
  ack_loop (suc fuel) [] bytes s app = elim empty_front [
    | none ↦ undefined
    | some k ↦
        if leb k bytes && not (bytes == 0)
        then undefined
        else done (record { bufs = []; bytes = bytes; owner = s; appended = app })
  ]
  ack_loop (suc fuel) (b ∷ bs) bytes s app =
      let (s', more) = released release b.keep_alive s in
      let rest = ack_loop fuel (bs ++ more) (bytes - length b.view) s' (app ++ more) in
      if leb (length b.view) bytes && not (bytes == 0)
      then rest
      else done (record { bufs = b ∷ bs; bytes = bytes; owner = s; appended = app })

-- `if (bytes) user_buffers.front().first.remove_prefix(bytes)`.
unfoldable pub remove_rest : {S : Type 0} → Left S → List Buffer → Outcome (Left S)
remove_rest l [] = if l.bytes == 0 then done (record l { bufs = [] }) else undefined
remove_rest l (b ∷ bs) = done (record l { bufs = record b { view = drop l.bytes b.view } ∷ bs })
