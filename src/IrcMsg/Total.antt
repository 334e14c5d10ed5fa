-- ===== src/IrcMsg/Total.antt =====
-- The parser ends on every input: no loop runs out of the fuel that it is given.
use snowcone.Prelude.{
  ℕ, zero, suc, ◌≤◌, ◌≡◌, ◌≢◌, ◌∙◌, refl, sym, inl, inr, Option, List, [], ◌∷◌, arith, Bytes, ◌==◌,
  Bool-cases, length,
}
use snowcone.IrcMsg.{
  Result, ok, throw, stuck, ◌>>=◌, word, parser, parse_irc_tags, args_loop, message_tags,
  message_source, message_command, non_empty, parse_irc_message,
}
use snowcone.IrcMsg.Scan.{word_shrinks}
use snowcone.IrcMsg.Steps.{
  message_tags_at, message_tags_none, message_command_lem, args_loop-word, args_loop_trailing,
  parse_irc_message_lem,
}
use snowcone.IrcMsg.Tags.{parse_irc_tags-ne-stuck}

-- A chain gets stuck only in one of its parts.
>>=-ne-stuck {ℓ κ} :
    {A : Type ℓ} {B : Type κ} (m : Result A) (f : A → Result B)
    → m ≢ stuck
    → ((a : A) → f a ≢ stuck)
    → (m >>= f) ≢ stuck
>>=-ne-stuck (ok a) f h k e = k a e
>>=-ne-stuck (throw x) f h k e = cc
>>=-ne-stuck stuck f h k e = h refl

pub args_loop-ne-stuck :
    (fuel : ℕ) (p : Bytes) (args : List Bytes) → length p ≤ fuel → args_loop fuel p args ≢ stuck
args_loop-ne-stuck fuel [] args h e = unfold args_loop in cc
args_loop-ne-stuck zero (c ∷ s) args h e = absurd (omega arith)
args_loop-ne-stuck (suc fuel) (c ∷ s) args h e = elim (Bool-cases (c == b':')) [
  | inl at ↦ cc (args_loop_trailing fuel c s args (ground arith))
  | inr other ↦
      args_loop-ne-stuck fuel (word (c ∷ s)).1 _ (omega (arith, word_shrinks c s))
        (sym (args_loop-word fuel c s args (λ eq. ground arith)) ∙ e)
]

given_tags-ne-stuck : (p : Bytes) → message_tags (b'@' ∷ p) ≢ stuck
given_tags-ne-stuck p e =
    >>=-ne-stuck (parse_irc_tags (word p).0) (λ ts. ok (ts, (word p).1))
      (parse_irc_tags-ne-stuck (word p).0) (λ ts same. cc) (sym (message_tags_at p) ∙ e)

message_tags-ne-stuck : (p : Bytes) → message_tags p ≢ stuck
message_tags-ne-stuck [] e = unfold message_tags in cc
message_tags-ne-stuck (c ∷ p) e = elim (Bool-cases (c == b'@')) [
  | inl at ↦ let same : c ≡ b'@' = ground arith in given_tags-ne-stuck p (rw same at e)
  | inr other ↦ cc (message_tags_none c p (λ eq. ground arith))
]

non_empty-ne-stuck : (command rest : Bytes) → non_empty command rest ≢ stuck
non_empty-ne-stuck [] rest e = cc
non_empty-ne-stuck (c ∷ cs) rest e = cc

message_command-ne-stuck : (p : Bytes) → message_command p ≢ stuck
message_command-ne-stuck p e = non_empty-ne-stuck _ _ (sym (message_command_lem p) ∙ e)

-- Every input, the null pointer included, gives a message or one of the two errors.
pub parse_irc_message-ne-stuck : (msg : Option Bytes) → parse_irc_message msg ≢ stuck
parse_irc_message-ne-stuck msg e =
    >>=-ne-stuck (message_tags (parser msg)) _ (message_tags-ne-stuck (parser msg))
      (λ head.
        >>=-ne-stuck (message_command (message_source head.1).1) _
          (message_command-ne-stuck (message_source head.1).1)
          (λ middle.
            >>=-ne-stuck (args_loop (length middle.1) middle.1 []) _
              (args_loop-ne-stuck (length middle.1) middle.1 [] (omega arith)) (λ args same. cc)))
      (sym (parse_irc_message_lem msg) ∙ e)
