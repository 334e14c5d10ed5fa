-- ===== src/LineBuffer/Layout.antt =====
-- The order of the iterators, and the buffer as the parts that they cut it into.
use snowcone.Prelude.{
  ℕ, ◌+◌, ◌-◌, ◌≤◌, ◌≡◌, sym, ap, ◌∙◌, ◌++◌, append_assoc, arith, Bytes, length, length-append,
  take, drop, take-append-drop, length-take_le, length-drop, Lacks,
}
use snowcone.LineBuffer.{LineBuffer, make, between}
use snowcone.LineBuffer.Cut.{between-append, between_middle}

-- What is buffered and not yet returned.
abbrev pub pending : LineBuffer → Bytes
pending b = between b.buffer b.start b.finish

pub record IsValid (b : LineBuffer) : Type 0 where
  pub in_order : b.start ≤ b.search
  pub searched : b.search ≤ b.finish
  pub in_buffer : b.finish ≤ length b.buffer
  -- No newline is left behind in the part that was searched.
  pub no_newline : Lacks b'\n' (between b.buffer b.start b.search)

-- The four parts of the buffer.
pub record Layout (b : LineBuffer) : Type 0 where
  pub used : Bytes
  pub seen : Bytes
  pub unseen : Bytes
  pub free : Bytes
  pub whole : b.buffer ≡ used ++ (seen ++ (unseen ++ free))
  pub start_at : b.start ≡ length used
  pub search_at : b.search ≡ length used + length seen
  pub finish_at : b.finish ≡ length used + (length seen + length unseen)
  pub none_seen : Lacks b'\n' seen

pub Layout-pending : (b : LineBuffer) (l : Layout b) → pending b ≡ l.seen ++ l.unseen
Layout-pending b l =
    let parts : b.buffer ≡ l.used ++ ((l.seen ++ l.unseen) ++ l.free) =
      l.whole ∙ ap (λ t. l.used ++ t) (sym (append_assoc l.seen l.unseen l.free)) in
    ap (λ t. between t b.start b.finish) parts
    ∙ between_middle l.used (l.seen ++ l.unseen) l.free b.start b.finish l.start_at
        (l.finish_at ∙ ap (λ t. length l.used + t) (sym (length-append l.seen l.unseen)))

pub Layout-IsValid : (b : LineBuffer) → Layout b → IsValid b
Layout-IsValid b l = record {
  in_order = omega (arith, l.start_at, l.search_at);
  searched = omega (arith, l.search_at, l.finish_at);
  in_buffer = omega (
    arith,
    l.finish_at,
    ap length l.whole,
    length-append l.used (l.seen ++ (l.unseen ++ l.free)),
    length-append l.seen (l.unseen ++ l.free),
    length-append l.unseen l.free,
  );
  no_newline =
      let e : between b.buffer b.start b.search ≡ l.seen =
        ap (λ t. between t b.start b.search) l.whole
        ∙ between_middle l.used l.seen (l.unseen ++ l.free) b.start b.search l.start_at
            l.search_at in
      rw e l.none_seen;
}

pub length-between :
    (buffer : Bytes) (i j : ℕ) → i ≤ j → j ≤ length buffer → length (between buffer i j) ≡ j - i
length-between buffer i j h k =
    length-take_le (j - i) (drop i buffer) (omega (arith, length-drop i buffer))

unfoldable pub IsValid-Layout : (b : LineBuffer) → IsValid b → Layout b
IsValid-Layout b v = record {
  used = take b.start b.buffer;
  seen = between b.buffer b.start b.search;
  unseen = between b.buffer b.search b.finish;
  free = drop b.finish b.buffer;
  whole =
      sym (take-append-drop b.start b.buffer)
      ∙ ap (λ t. take b.start b.buffer ++ t)
          (sym (between-append b.buffer b.start b.search v.in_order)
            ∙ ap (λ t. between b.buffer b.start b.search ++ t)
                (sym (between-append b.buffer b.search b.finish v.searched)));
  start_at = sym (length-take_le b.start b.buffer (omega arith));
  search_at =
      omega (arith, length-take_le b.start b.buffer, length-between b.buffer b.start b.search);
  finish_at = omega (
    arith,
    length-take_le b.start b.buffer,
    length-between b.buffer b.start b.search,
    length-between b.buffer b.search b.finish,
  );
  none_seen = v.no_newline;
}

pub make-IsValid : (n : ℕ) → IsValid (make n)
unfolding make
make-IsValid n = record {
  in_order = omega arith;
  searched = omega arith;
  in_buffer = omega (arith);
  no_newline = tt;
}
