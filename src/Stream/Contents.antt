-- ===== src/Stream/Contents.antt =====
-- The bytes that a stream's queue holds, and the size that `size()` computes of them.
use oxen_libquic.Base.{
  ℕ, ◌+◌, ◌≤◌, ◌<◌, ◌^◌, ◌≡◌, refl, sym, ap, ◌∙◌, List, [], ◌∷◌, ◌++◌, append_assoc, arith, length,
  length-append,
}
use oxen_libquic.Stream.Buffers.{Buffer, size, views}
use oxen_libquic.Stream.{Stream, unsent}

abbrev pub concat {ℓ} : {A : Type ℓ} → List (List A) → List A
concat [] = []
concat (v ∷ vs) = v ++ concat vs

abbrev pub contents : List Buffer → List ℕ
contents [] = []
contents (b ∷ bs) = b.view ++ contents bs

pub concat-views : (bs : List Buffer) → concat (views bs) ≡ contents bs
concat-views [] = refl
concat-views (b ∷ bs) = ap (λ t. b.view ++ t) (concat-views bs)

pub contents-append : (bs cs : List Buffer) → contents (bs ++ cs) ≡ contents bs ++ contents cs
contents-append [] cs = refl
contents-append (b ∷ bs) cs =
    ap (λ t. b.view ++ t) (contents-append bs cs)
    ∙ sym (append_assoc b.view (contents bs) (contents cs))

-- The sum does not wrap while the queue holds less than 2^64 bytes.
pub size-contents :
    (bs : List Buffer) → length (contents bs) < 2 ^ 64 → size bs ≡ length (contents bs)
unfolding size
size-contents [] h = refl
size-contents (b ∷ bs) h = omega (
  arith,
  length-append b.view (contents bs),
  size-contents bs (omega (arith, length-append b.view (contents bs))),
)

-- No more is unacknowledged than the queue holds, and that much fits a `size_t`.
pub record IsValid (s : Stream) : Type 0 where
  pub in_queue : s.unacked_size ≤ length (contents s.user_buffers)
  pub fits : length (contents s.user_buffers) < 2 ^ 64

pub unsent-contents :
    (s : Stream) → IsValid s → unsent s + s.unacked_size ≡ length (contents s.user_buffers)
unfolding unsent
unsent-contents s v = omega (arith, size-contents s.user_buffers v.fits)
