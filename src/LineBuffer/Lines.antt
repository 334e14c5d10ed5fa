-- ===== src/LineBuffer/Lines.antt =====
-- `next_line` takes the first complete line of what is pending.
use snowcone.Prelude.{
  drop_front, ℕ, suc, ◌+◌, ◌≡◌, ◌≢◌, refl, sym, ap, ◌∙◌, none, some, [], ◌∷◌, ◌++◌, append_assoc,
  arith, Bytes, ==_self, ==_ne, length, length-append, set, All-append, All-of_append, Lacks,
}
use snowcone.LineBuffer.{LineBuffer, next_line, find, terminator, c_string, until_zero, between}
use snowcone.LineBuffer.Cut.{find_none, find_at, first_at, until_zero_at, between_middle}
use snowcone.LineBuffer.Layout.{
  pending, IsValid, Layout, Layout-pending, Layout-IsValid, IsValid-Layout,
}
use snowcone.LineBuffer.Terminator.{strip_cr, Cut, terminated}

none_Layout :
    (b : LineBuffer) (l : Layout b) → Lacks b'\n' l.unseen → Layout (record b { search = b.finish })
none_Layout b l h = record {
  used = l.used;
  seen = l.seen ++ l.unseen;
  unseen = [];
  free = l.free;
  whole = l.whole ∙ simp append_assoc;
  start_at = l.start_at;
  search_at = omega (arith, l.finish_at, length-append l.seen l.unseen);
  finish_at = omega (arith, l.finish_at, length-append l.seen l.unseen);
  none_seen = All-append _ l.seen l.unseen l.none_seen h;
}

-- Where the search starts, the unseen part stands.
between_unseen : (b : LineBuffer) (l : Layout b) → between b.buffer b.search b.finish ≡ l.unseen
between_unseen b l =
    let front : Bytes = l.used ++ l.seen in
    let parts : b.buffer ≡ front ++ (l.unseen ++ l.free) = l.whole ∙ simp append_assoc in
    let size = length-append l.used l.seen in
    ap (λ t. between t b.search b.finish) parts
    ∙ between_middle front l.unseen l.free b.search b.finish (omega (arith, l.search_at, size))
        (omega (arith, l.finish_at, size))

-- Without a newline there is no line, and nothing is lost.
pub next_line-none :
    (b : LineBuffer)
    → IsValid b
    → Lacks b'\n' (pending b)
    → ((next_line b).0 ≡ none) × IsValid (next_line b).1 × (pending (next_line b).1 ≡ pending b)
unfolding next_line
next_line-none b v h =
    let l = IsValid-Layout b v in
    let unseen_lacks : Lacks b'\n' l.unseen =
      (All-of_append _ l.seen l.unseen (rw (Layout-pending b l) at h)).1 in
    let at_end : b.search + find b'\n' (between b.buffer b.search b.finish) ≡ b.finish =
      rw (between_unseen b l, find_none b'\n' l.unseen unseen_lacks)
        (omega (arith, l.search_at, l.finish_at)) in
    rw (at_end, ==_self b.finish) (refl, Layout-IsValid _ (none_Layout b l unseen_lacks), refl)

-- The state behind the line that ends at `nl`.
abbrev cut : LineBuffer → ℕ → LineBuffer
cut b nl = record {
  buffer = set b.buffer (terminator b.buffer b.start nl) 0;
  start = nl + 1;
  search = nl + 1;
  finish = b.finish;
}

next_line-cut :
    (b : LineBuffer) (nl : ℕ)
    → b.search + find b'\n' (between b.buffer b.search b.finish) ≡ nl
    → nl ≢ b.finish
    → next_line b ≡ (some b.start, cut b nl)
unfolding next_line
next_line-cut b nl e h = rw (e, ==_ne nl b.finish h)

module _ (b : LineBuffer) (used line rest free : Bytes) (nl : ℕ)
    (whole : b.buffer ≡ used ++ (line ++ b'\n' ∷ (rest ++ free))) (start_at : b.start ≡ length used)
    (nl_at : nl ≡ length used + length line) (finish_at : b.finish ≡ nl + 1 + length rest) where
  parts : Cut used line (rest ++ free) b.start nl
  parts = terminated used line (rest ++ free) b.start nl start_at nl_at

  cut_buffer : (cut b nl).buffer ≡ used ++ (parts.0 ++ 0 ∷ (parts.1 ++ (rest ++ free)))
  cut_buffer = ap (λ t. set t (terminator t b.start nl) 0) whole ∙ parts.2

  cut_string : c_string (cut b nl).buffer b.start ≡ until_zero (strip_cr line)
  unfolding c_string
  cut_string =
      rw (cut_buffer, start_at, drop_front used (parts.0 ++ 0 ∷ (parts.1 ++ (rest ++ free))))
        (until_zero_at parts.0 (parts.1 ++ (rest ++ free)) ∙ ap until_zero parts.3)

  cut_Layout : Layout (cut b nl)
  cut_Layout = record {
    used = used ++ (parts.0 ++ 0 ∷ parts.1);
    seen = [];
    unseen = rest;
    free = free;
    whole = cut_buffer ∙ simp append_assoc;
    start_at = omega (arith, nl_at, used_size, parts.4);
    search_at = omega (arith, nl_at, used_size, parts.4);
    finish_at = omega (arith, nl_at, finish_at, used_size, parts.4);
    none_seen = tt;
  }
    where
      used_size :
          length (used ++ (parts.0 ++ 0 ∷ parts.1))
          ≡ length used + (length parts.0 + suc (length parts.1))
      used_size =
          omega (
            arith,
            length-append used (parts.0 ++ 0 ∷ parts.1),
            length-append parts.0 (0 ∷ parts.1),
          )

  pending-cut : pending (cut b nl) ≡ rest
  unfolding cut_Layout
  pending-cut = Layout-pending (cut b nl) cut_Layout

-- With a newline pending, the line in front of it is returned, without a carriage return at its
-- end, up to its first zero byte. What stands behind the newline is pending next.
pub next_line-some :
    (b : LineBuffer) (line rest : Bytes)
    → IsValid b
    → pending b ≡ line ++ b'\n' ∷ rest
    → Lacks b'\n' line
    → ((next_line b).0 ≡ some b.start)
      × (c_string (next_line b).1.buffer b.start ≡ until_zero (strip_cr line))
      × IsValid (next_line b).1
      × (pending (next_line b).1 ≡ rest)
next_line-some b line rest v e h =
    let l = IsValid-Layout b v in
    let (u, line_is, unseen_is) =
      first_at b'\n' l.seen l.unseen line rest l.none_seen (sym (Layout-pending b l) ∙ e) in
    let nl : ℕ = b.search + find b'\n' (between b.buffer b.search b.finish) in
    let nl_at : nl ≡ length l.used + length line =
      rw
        (
          between_unseen b l,
          unseen_is,
          find_at b'\n' u rest (All-of_append _ l.seen u (rw line_is at h)).1,
        )
        (omega (arith, l.search_at, ap length line_is, length-append l.seen u)) in
    let whole : b.buffer ≡ l.used ++ (line ++ b'\n' ∷ (rest ++ l.free)) =
      l.whole ∙ rw (unseen_is, line_is) (simp append_assoc) in
    let finish_at : b.finish ≡ nl + 1 + length rest = omega (
      arith,
      l.finish_at,
      nl_at,
      ap length unseen_is,
      length-append u (b'\n' ∷ rest),
      ap length line_is,
      length-append l.seen u,
    ) in
    rw (next_line-cut b nl refl (omega (arith, finish_at))) (
      refl,
      cut_string b l.used line rest l.free nl whole l.start_at nl_at finish_at,
      Layout-IsValid _ (cut_Layout b l.used line rest l.free nl whole l.start_at nl_at finish_at),
      pending-cut b l.used line rest l.free nl whole l.start_at nl_at finish_at,
    )
