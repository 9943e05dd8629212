-- ===== src/Stream/Closing.antt =====
-- src/stream.cpp: a stream that is closed, perhaps more than once, and then destroyed.
use oxen_libquic.Base.{
  ℕ, suc, ◌+◌, ◌≡◌, refl, sym, ◌∙◌, true, false, none, List, [], ◌∷◌, ◌++◌, if◌then◌else◌, arith,
}
use oxen_libquic.Stream.{
  Stream, Effect, io_ready, shutdown_stream, run_close_callback, close, shut, destroy, available,
}

-- Calls of `close` one after another, with all that they do.
abbrev pub close_all : Stream → List ℕ → Stream × List Effect
close_all s [] = (s, [])
close_all s (code ∷ codes) =
    let (s1, es) = close s code in let (s2, more) = close_all s1 codes in (s2, es ++ more)

abbrev pub shutdowns : List Effect → ℕ
shutdowns [] = 0
shutdowns (shutdown_stream id code ∷ es) = suc (shutdowns es)
shutdowns (_ ∷ es) = shutdowns es

shutdowns-append : (es fs : List Effect) → shutdowns (es ++ fs) ≡ shutdowns es + shutdowns fs
shutdowns-append [] fs = omega arith
shutdowns-append (io_ready ∷ es) fs = shutdowns-append es fs
shutdowns-append (run_close_callback f id code ∷ es) fs = shutdowns-append es fs
shutdowns-append (shutdown_stream id code ∷ es) fs = omega (arith, shutdowns-append es fs)

close_lem :
    (s : Stream) (code : ℕ)
    → s.is_closing ≡ s.is_shutdown
    → let (s', es) = close s code in
      (s'.is_closing ≡ true)
      × (s'.is_shutdown ≡ true)
      × (s'.data_callback ≡ none)
      × (shutdowns es ≡ (if s.is_closing then 0 else 1))
unfolding close shut
close_lem s code h = (ground arith, ground arith, ground arith, ground arith)

close_again :
    (s : Stream) (codes : List ℕ)
    → s.is_closing ≡ true
    → s.is_shutdown ≡ true
    → s.data_callback ≡ none
    → let (s', es) = close_all s codes in
      (s'.is_closing ≡ true)
      × (s'.is_shutdown ≡ true)
      × (s'.data_callback ≡ none)
      × (shutdowns es ≡ 0)
close_again s [] c h d = (c, h, d, refl)
close_again s (code ∷ codes) c h d =
    let (c1, h1, d1, n) = close_lem s code (c ∙ sym h) in
    let (c2, h2, d2, m) = close_again (close s code).0 codes c1 h1 d1 in
    (
      c2,
      h2,
      d2,
      ground
          (arith, c, n, m, shutdowns-append (close s code).1 (close_all (close s code).0 codes).1),
    )

-- However often a stream is closed that is closing just where it is shut down, one shutdown goes to
-- ngtcp2, none if it was closing already; then the stream is not available and has no data
-- callback, and its destructor runs no close callback.
pub close_all_lem :
    (s : Stream) (code : ℕ) (codes : List ℕ)
    → s.is_closing ≡ s.is_shutdown
    → let (s', es) = close_all s (code ∷ codes) in
      (shutdowns es ≡ (if s.is_closing then 0 else 1))
      × (available s' ≡ false)
      × (s'.data_callback ≡ none)
      × (destroy s' ≡ [])
unfolding destroy available
close_all_lem s code codes h =
    let (c1, h1, d1, n) = close_lem s code h in
    let (c2, h2, d2, m) = close_again (close s code).0 codes c1 h1 d1 in
    (
      ground (arith, n, m, shutdowns-append (close s code).1 (close_all (close s code).0 codes).1),
      ground (arith, c2),
      d2,
      ground (arith, c2),
    )
