-- ===== src/RootProtocol/Decode/Whole.antt =====
-- What `decode` of src/root_v1.rs presents of the command's output: all of it, or a bounded prefix.
use agent_bash_tool.Common.{
  ℕ, inl, inr, subst, ◌+◌, ◌-◌, ◌%◌, ◌^◌, ◌≤◌, ◌<◌, ◌≡◌, refl, sym, ap, ◌∙◌, min, Bool, true, false,
  Option, none, some, List, arith, ltb, if◌then◌else◌, length, take, length-take, take-all,
  take-take, take-min, Bool-cases, ltb_false→le, ltb→lt,
}
use agent_bash_tool.RootProtocol.Base64.{base64}
use agent_bash_tool.RootProtocol.Stage.{Line}
use agent_bash_tool.RootProtocol.Decode.{
  Decoder, start, Read, all_read, refusal_read, read_lines, output_prefix_bytes,
}
use agent_bash_tool.RootProtocol.Decode.StreamStages.{IsClean, IsCounted, output_bytes}
use agent_bash_tool.RootProtocol.Decode.Reply.{
  Output, Delivery, complete, Presented, decode, presented, present, shown_of, cut, has_ended,
  reply_to,
}
use agent_bash_tool.RootProtocol.Decode.EndedReply.{ReadTakes, read_lines-ReadTakes, answer-EndedIn}

-- What the reply says of the output, of which `stream` is all there was.
pub record Presents (o : Output) (stream : List ℕ) : Type 0 where
  pub counted : o.bytes ≡ length stream
  pub bounded : o.presented_bytes ≤ output_prefix_bytes
  pub shown : o.encoded ≡ base64 (take o.presented_bytes stream)
  pub omitted : o.presented_bytes + o.omitted_bytes ≡ length stream
  pub whole : o.delivery ≡ complete → o.encoded ≡ base64 stream

-- The text is what the stream starts with, at most `n` bytes of it.
record IsStart (n : ℕ) (stream text : List ℕ) : Type 0 where
  bounded : length text ≤ n
  within : length text ≤ length stream
  same : text ≡ take (length text) stream

min-swap : (a b : ℕ) → min a b ≡ min b a
min-swap a b = omega arith

take-IsStart : (size n : ℕ) (stream : List ℕ) → size ≤ n → IsStart n stream (take size stream)
take-IsStart size n stream h = record {
  bounded = omega (arith, length-take size stream);
  within = omega (arith, length-take size stream);
  same = sym (
      ap (λ k. take k stream) (length-take size stream ∙ min-swap size (length stream))
      ∙ take-min size stream);
}

short : (size n : ℕ) (stream : List ℕ) → ltb n size ≡ true → length (take n stream) ≤ size
short size n stream h = let longer = ltb→lt n size h in omega (arith, length-take n stream)

cut-IsStart :
    (n : ℕ) (stream : List ℕ) (size : Option ℕ) → IsStart n stream (cut size (take n stream))
cut-IsStart n stream none = take-IsStart n n stream (omega arith)
cut-IsStart n stream (some size) = elim (Bool-cases (ltb n size)) [
  | inl longer ↦
      let all : take size (take n stream) ≡ take n stream =
        take-all size (take n stream) (short size n stream longer) in
      rw all (take-IsStart n n stream (omega arith))
  | inr shorter ↦
      rw (take-take size n stream (ltb_false→le n size shorter))
        (take-IsStart size n stream (ltb_false→le n size shorter))
]

if-IsStart :
    (n : ℕ) (stream : List ℕ) (b : Bool) (x y : List ℕ)
    → IsStart n stream x
    → IsStart n stream y
    → IsStart n stream (if b then x else y)
if-IsStart n stream true x y hx hy = hx
if-IsStart n stream false x y hx hy = hy

start-IsCounted : IsCounted start
start-IsCounted = record { prefix = refl; bytes = refl }

output-Presents :
    (d : Decoder) (p : Presented) (stream : List ℕ) (delivery : Delivery)
    → d.bytes ≡ length stream
    → IsStart output_prefix_bytes stream p.shown
    → (delivery ≡ complete → d.bytes - length p.shown ≡ 0)
    → Presents (present d p delivery) stream
output-Presents d p stream delivery counted i whole =
    let within = i.within in
    let text = i.same in
    record {
      counted = counted;
      bounded = i.bounded;
      shown = ap base64 i.same;
      omitted = omega arith;
      whole = λ h.
          let nothing_left = whole h in
          ap base64 (i.same ∙ take-all (length p.shown) stream (omega arith));
    }

module _ (utf8_cut : List ℕ → Option ℕ) (sha256 : List ℕ → List ℕ) where
  shown_of-IsStart :
      (d : Decoder)
      → IsCounted d
      → IsStart output_prefix_bytes d.streamed (shown_of utf8_cut sha256 d)
  unfolding shown_of
  shown_of-IsStart d c = rw (c.prefix) (
      if-IsStart _ _ _
        (cut (utf8_cut (take output_prefix_bytes d.streamed)) (take output_prefix_bytes d.streamed))
        (take output_prefix_bytes d.streamed)
        (cut-IsStart output_prefix_bytes d.streamed
          (utf8_cut (take output_prefix_bytes d.streamed)))
        (take-IsStart output_prefix_bytes output_prefix_bytes d.streamed (omega arith)))

  presented-shown : (d : Decoder) → (presented utf8_cut sha256 d).shown ≡ shown_of utf8_cut sha256 d
  unfolding presented
  presented-shown d = if-shown _ _ _ _ refl refl
    where
      if-shown :
          (b : Bool) (x y : Presented) (s : List ℕ)
          → x.shown ≡ s
          → y.shown ≡ s
          → (if b then x else y).shown ≡ s
      if-shown true x y s hx hy = hx
      if-shown false x y s hx hy = hy

  read-Presents :
      (stream : List ℕ) (r : Read)
      → length stream < 2 ^ 64
      → ReadTakes start stream r
      → (reply_to utf8_cut sha256 r).outcome ≡ has_ended
      → Presents (reply_to utf8_cut sha256 r).output_of stream
  unfolding ReadTakes
  read-Presents stream (refusal_read stages value) small t h = absurd (ground arith)
  read-Presents stream (all_read d) small t h =
      let p = presented utf8_cut sha256 d in
      let done = answer-EndedIn d p h in
      let ordered = done.ordered in
      let flawless = done.flawless in
      let clean : IsClean d = rw (ordered, flawless) refl in
      let counts = t.counted_on start-IsCounted in
      let same : d.streamed ≡ stream = t.streamed clean in
      let total : d.bytes ≡ length d.streamed % 2 ^ 64 = counts.bytes in
      let size : length d.streamed ≡ length stream = ap length same in
      let prefix =
        subst (λ s. IsStart output_prefix_bytes s p.shown) same
          (subst (IsStart output_prefix_bytes d.streamed) (sym (presented-shown d))
            (shown_of-IsStart d counts)) in
      rw done.output (output-Presents d p stream done.delivery (omega arith) prefix done.whole)

  -- When the run is said to have ended, with fewer than 2 ^ 64 bytes of output, the reply counts the
  -- bytes of all output lines before the end, presents at most 64 KiB that they start with, counts the
  -- rest as omitted, and presents them whole if it calls them complete.
  pub decode-Presents :
      (lines : List Line)
      → length (output_bytes lines) < 2 ^ 64
      → (decode utf8_cut sha256 lines).outcome ≡ has_ended
      → Presents (decode utf8_cut sha256 lines).output_of (output_bytes lines)
  unfolding decode
  decode-Presents lines small h =
      read-Presents (output_bytes lines) (read_lines start lines) small
        (read_lines-ReadTakes start lines) h
