-- ===== src/Serialization/Puts.antt =====
-- Writing chunks of bytes one after the other: what every serializer comes down to.
use message_transport.Common.{
  ℕ, ◌+◌, ◌≤◌, ◌<◌, ◌≡◌, refl, sym, ap, ◌∙◌, fun_ext, List, [], ◌∷◌, ◌++◌, length, flatten,
  length-append, arith, dec_lt,
}
use message_transport.Common.Memory.{
  store, store-append, store-nil, Frame, Frame-refl, Frame-trans, store-Frame,
}
use message_transport.Serialization.Stream.{
  Stream, ok, overrun, Io, pure, ◌>>=◌, ◌>>◌, advance, write_at,
}

unfoldable pub put : List ℕ → Io (Unit {0})
unfolding advance write_at
put bytes = advance (length bytes) >>= λ p. write_at p bytes

unfoldable pub puts : List (List ℕ) → Io (Unit {0})
puts [] = pure tt
puts (c ∷ cs) = put c >> puts cs

pub puts-append : (a b : List (List ℕ)) → puts (a ++ b) ≡ (puts a >> puts b)
unfolding puts
puts-append [] b = refl
puts-append (c ∷ a) b = rw (puts-append a b) (fun_ext λ s. ground arith)

pub puts_one : (c : List ℕ) → puts (c ∷ []) ≡ put c
unfolding puts
puts_one c = fun_ext λ s. ground arith

-- The stream after `bytes` were written.
abbrev pub written : Stream → List ℕ → Stream
written s bytes = record {
  mem = store s.mem s.data_ bytes;
  data_ = s.data_ + length bytes;
  end_ = s.end_;
}

put_fits : (c : List ℕ) (s : Stream) → s.data_ + length c ≤ s.end_ → put c s ≡ ok tt (written s c)
unfolding put
put_fits c s h = ground arith

written-append : (s : Stream) (a b : List ℕ) → written (written s a) b ≡ written s (a ++ b)
written-append s a b = ground (arith, store-append s.mem s.data_ a b, length-append a b)

written-nil : (s : Stream) → written s [] ≡ s
written-nil s = ground (arith, store-nil s.mem s.data_)

-- Chunks that fit are one copy of all their bytes.
pub puts_fit :
    (cs : List (List ℕ)) (s : Stream)
    → s.data_ + length (flatten cs) ≤ s.end_
    → puts cs s ≡ ok tt (written s (flatten cs))
unfolding puts
puts_fit [] s h = ap (ok tt) (sym (written-nil s))
puts_fit (c ∷ cs) s h =
    rw (put_fits c s (omega (arith, length-append c (flatten cs))), ◌>>=◌)
      (puts_fit cs (written s c) (omega (arith, length-append c (flatten cs)))
        ∙ ap (ok tt) (written-append s c (flatten cs)))

put_overruns :
    (c : List ℕ) (s : Stream)
    → s.end_ < s.data_ + length c
    → put c s ≡ overrun (record s { data_ = s.data_ + length c })
unfolding put
put_overruns c s h = ground arith

-- Chunks that do not fit end in the exception, and even so nothing outside the stream changes.
puts_overrun_from :
    (lo : ℕ) (cs : List (List ℕ)) (s : Stream)
    → lo ≤ s.data_
    → s.data_ ≤ s.end_
    → s.end_ < s.data_ + length (flatten cs)
    → (t : Stream) × (puts cs s ≡ overrun t) × Frame lo s.end_ s.mem t.mem
unfolding puts
puts_overrun_from lo [] s g b h = absurd (omega arith)
puts_overrun_from lo (c ∷ cs) s g b h = elim (dec_lt s.end_ (s.data_ + length c)) [
  | yes over ↦ (
    record s { data_ = s.data_ + length c },
    rw (put_overruns c s over, ◌>>=◌),
    Frame-refl lo s.end_ s.mem,
  )
  | no fits ↦
      let (t, e, f) =
        puts_overrun_from lo cs (written s c) (omega arith) (omega arith)
          (omega (arith, length-append c (flatten cs))) in
      (
        t,
        rw (put_fits c s (omega arith), ◌>>=◌) e,
        Frame-trans (store-Frame lo s.end_ s.mem s.data_ c g (omega arith)) f,
      )
]

pub puts_overrun :
    (cs : List (List ℕ)) (s : Stream)
    → s.data_ ≤ s.end_
    → s.end_ < s.data_ + length (flatten cs)
    → (t : Stream) × (puts cs s ≡ overrun t) × Frame s.data_ s.end_ s.mem t.mem
puts_overrun cs s b h = puts_overrun_from s.data_ cs s (omega arith) b h
