-- ===== src/Release/Evidence/Stamps.antt =====
-- What a stamp that matches says of its file, in source_stamp_matches of src/continuation.rs.
use agent_bash_tool.Common.{
  ℕ, ◌≡◌, refl, ap, Bool, true, false, not, Option, none, some, List, if◌then◌else◌, arith,
}
use agent_bash_tool.Effects.{Result, ok, err}
use agent_bash_tool.Effects.Results.{reached}
use agent_bash_tool.RootProtocol.Json.{Value, str}
use agent_bash_tool.RootProtocol.Json.Equal.{is_text_sound}
use agent_bash_tool.Release.{
  FileStat, Opened, Stamped, key, provided, same_file, source_stamp_matches, stamp_of, is_stamped,
  is_unchanged,
}

pub passed :
    {A : Type 0} (test : Bool) (next : Result (Option A)) (a : A)
    → provided test next ≡ ok (some a)
    → (test ≡ true) × (next ≡ ok (some a))
unfolding provided
passed true next a h = (refl, h)
passed false next a h = absurd (ground arith)

pub unwrapped : {A : Type 0} {a b : A} → ok (some a) ≡ ok (some b) → a ≡ b
unwrapped {a = a} h = ap (or_else a) h
  where
    or_else : {A : Type 0} → A → Result (Option A) → A
    or_else a (ok (some b)) = b
    or_else a (ok none) = a
    or_else a (err e) = a

stood :
    (test : Bool) (next : Result Bool)
    → (if not test then ok false else next) ≡ ok true
    → (test ≡ true) × (next ≡ ok true)
stood true next h = (refl, h)
stood false next h = absurd (ground arith)

module _ (parse : List ℕ → Result Value) (sha256 : List ℕ → List ℕ) where
  -- A file of one name, owned by `owner`, was read as `content` and stood unchanged afterwards.
  pub record Reads (f : Stamped) (owner : ℕ) (content : List ℕ) : Type 0 where
    pub opened : Opened
    pub before : FileStat
    pub after : FileStat
    pub is_opened : f.opened ≡ ok opened
    pub is_stat : opened.stat ≡ ok before
    pub is_content : opened.content ≡ ok content
    pub is_after : f.after ≡ ok after
    pub owned : before.owner ≡ owner
    pub one_name : before.links ≡ 1
    pub unchanged : same_file after before ≡ true

  -- The stamp is that of such a file.
  abbrev pub IsStampOf : Value → Stamped → ℕ → Type 0
  IsStampOf stamp f owner =
      (content : List ℕ) × Reads f owner content × (key stamp "sha256" ≡ str (sha256 content))

  pub source_stamp_matches-IsStampOf :
      (f : Stamped) (stamp : Value) (owner : ℕ)
      → source_stamp_matches parse sha256 f stamp owner ≡ ok true
      → IsStampOf stamp f owner
  unfolding source_stamp_matches stamp_of is_stamped is_unchanged
  source_stamp_matches-IsStampOf f stamp owner h =
      let (opened, o, h1) = reached f.opened _ true h in
      let (before, s, h2) = reached opened.stat _ true h1 in
      let (stamped, h3) = stood (is_stamped stamp before owner) _ h2 in
      let (content, c, h4) = reached opened.content _ true h3 in
      let (after, a, h5) = reached f.after _ true h4 in
      let same : is_unchanged parse sha256 stamp before content after ≡ true = cc in
      (
        content,
        record {
          opened = opened;
          before = before;
          after = after;
          is_opened = o;
          is_stat = s;
          is_content = c;
          is_after = a;
          owned = ground arith;
          one_name = ground arith;
          unchanged = ground arith;
        },
        is_text_sound (key stamp "sha256") (sha256 content) (ground arith),
      )
