-- ===== src/LineBuffer/Invariant.antt =====
-- Reading into the buffer and `shift` keep it valid.
use snowcone.Prelude.{
  take_front, drop_front, ◌+◌, ◌-◌, ◌≤◌, ◌≡◌, refl, sym, ap, ◌∙◌, [], ◌++◌, append_assoc, arith,
  inl, inr, Bool-cases, ◌==◌, Bytes, length, length-append, drop, length-drop,
}
use snowcone.LineBuffer.{LineBuffer, between, overwrite, receive, commit, shift, prepare}
use snowcone.LineBuffer.Cut.{drop-drop}
use snowcone.LineBuffer.Layout.{
  pending, IsValid, Layout, Layout-pending, Layout-IsValid, IsValid-Layout,
}

-- A read of `bytes` that fits in the space of `prepare`, and its `commit`.
abbrev pub fill : LineBuffer → Bytes → LineBuffer
fill b bytes = commit (receive b bytes) (length bytes)

overwrite_tail :
    (front free bytes : Bytes)
    → length bytes ≤ length free
    → overwrite (front ++ free) (length front) bytes ≡ front ++ (bytes ++ drop (length bytes) free)
unfolding overwrite
overwrite_tail front free bytes h = rw (
  take_front front free,
  ← drop-drop (length bytes) (length front) (front ++ free),
  drop_front front free,
)

fill-Layout :
    (b : LineBuffer) (bytes : Bytes) (l : Layout b)
    → length bytes ≤ length l.free
    → Layout (fill b bytes)
unfolding receive commit
fill-Layout b bytes l h = record {
  used = l.used;
  seen = l.seen;
  unseen = l.unseen ++ bytes;
  free = drop (length bytes) l.free;
  whole =
      let front : Bytes = l.used ++ (l.seen ++ l.unseen) in
      let parts : b.buffer ≡ front ++ l.free = l.whole ∙ simp append_assoc in
      let at : b.finish ≡ length front = omega (
        arith,
        l.finish_at,
        length-append l.used (l.seen ++ l.unseen),
        length-append l.seen l.unseen,
      ) in
      rw (parts, at, overwrite_tail front l.free bytes h) (simp append_assoc);
  start_at = l.start_at;
  search_at = l.search_at;
  finish_at = omega (arith, l.finish_at, length-append l.unseen bytes);
  none_seen = l.none_seen;
}

length-free : (b : LineBuffer) (v : IsValid b) → length (IsValid-Layout b v).free ≡ (prepare b).1
unfolding prepare IsValid-Layout
length-free b v = length-drop b.finish b.buffer

-- A read that fits in the space of `prepare` keeps the buffer valid, and its bytes stand behind
-- those that were pending.
pub fill_lem :
    (b : LineBuffer) (bytes : Bytes)
    → IsValid b
    → length bytes ≤ (prepare b).1
    → IsValid (fill b bytes) × (pending (fill b bytes) ≡ pending b ++ bytes)
unfolding fill-Layout IsValid-Layout
fill_lem b bytes v h =
    let l = IsValid-Layout b v in
    let after = fill-Layout b bytes l (omega (arith, length-free b v)) in
    (
      Layout-IsValid _ after,
      Layout-pending _ after
          ∙ (sym (append_assoc l.seen l.unseen bytes)
              ∙ ap (λ t. t ++ bytes) (sym (Layout-pending b l))),
    )

-- The moved bytes, then what stood behind them.
shifted-Layout :
    (b : LineBuffer) (l : Layout b)
    → Layout (record {
      buffer = overwrite b.buffer 0 (pending b);
      start = 0;
      search = b.search - b.start;
      finish = b.finish - b.start;
    })
unfolding overwrite
shifted-Layout b l = record {
  used = [];
  seen = l.seen;
  unseen = l.unseen;
  free = drop (0 + length (pending b)) b.buffer;
  whole = rw (Layout-pending b l) (simp append_assoc);
  start_at = refl;
  search_at = omega (arith, l.search_at, l.start_at);
  finish_at = omega (arith, l.finish_at, l.start_at);
  none_seen = l.none_seen;
}

shifted-pending :
    (b : LineBuffer) (l : Layout b)
    → between (overwrite b.buffer 0 (pending b)) 0 (b.finish - b.start) ≡ pending b
unfolding shifted-Layout
shifted-pending b l = Layout-pending _ (shifted-Layout b l) ∙ sym (Layout-pending b l)

-- `shift` keeps what is pending, and moves it to the front.
pub shift_lem :
    (b : LineBuffer)
    → IsValid b
    → IsValid (shift b) × (pending (shift b) ≡ pending b) × ((shift b).start ≡ 0)
unfolding shift
shift_lem b v = elim (Bool-cases (b.start == 0)) [
  | inl at_front ↦ rw (at_front, shift) (v, refl, ground arith)
  | inr behind ↦
      let l = IsValid-Layout b v in
      rw (behind, shift) (Layout-IsValid _ (shifted-Layout b l), shifted-pending b l, refl)
]
