-- ===== src/Release/Receipt/Vouched.antt =====
-- What a release by retention_released of src/continuation.rs rests on.
use agent_bash_tool.Common.{
  ℕ, ◌≡◌, refl, sym, ◌∙◌, ap, Bool, true, false, not, ◌&&◌, Option, none, some, List, if◌then◌else◌,
  arith,
}
use agent_bash_tool.Effects.{ErrorKind, not_found, if_missing, IoError, Result, ok, err}
use agent_bash_tool.RootProtocol.Json.{Value, str}
use agent_bash_tool.Continuation.Files.{Binding, Paths, binding_of, common_of}
use agent_bash_tool.Effects.Results.{reached}
use agent_bash_tool.Release.{
  DirStat, FileStat, Opened, Readings, Decided, Held, key, is_sealed, is_writable,
}
use agent_bash_tool.Release.Evidence.{local_release}
use agent_bash_tool.Release.Evidence.Original.{IsOriginal}
use agent_bash_tool.Release.Receipt.{
  opened_released, unless_missing, directory_released, bound_of, vouched,
}
use agent_bash_tool.Release.Evidence.Stamps.{passed}
use agent_bash_tool.Release.Receipt.Decision.{IsDecided, content_released-IsDecided}

str-injective : {a b : List ℕ} → str a ≡ str b → a ≡ b
str-injective h = cc

allowed :
    {A : Type 0} (test : Bool) (a : A) (failure : IoError) (b : A)
    → (if test then ok a else err failure) ≡ ok b
    → a ≡ b
allowed true a failure b h = cc
allowed false a failure b h = absurd (ground arith)

module _ (parse : List ℕ → Result Value) (sha256 : List ℕ → List ℕ) (paths : Paths)
    (r : Readings) where
  -- The release is Broker's, its receipt was sealed in root's name, and the evidence is the original.
  pub record IsVouched (v : Value) : Type 0 where
    pub registration_bytes : List ℕ
    pub registration : Value
    pub held : Held
    pub decided : Decided
    pub receipt_file : Opened
    pub registration_read : r.registration ≡ ok registration_bytes
    pub registration_is : parse registration_bytes ≡ ok registration
    pub binds : binding_of paths (λ _. sha256 registration_bytes) registration ≡ ok held.bound
    pub opened : r.receipt ≡ ok receipt_file
    pub stat_is : receipt_file.stat ≡ ok held.stat
    pub content_is : receipt_file.content ≡ ok held.content
    pub is_regular : held.stat.is_file ≡ true
    pub of_root : held.stat.owner ≡ 0
    pub one_name : held.stat.links ≡ 1
    pub read_only : is_writable held.stat.mode ≡ false
    pub decision : IsDecided parse sha256 paths r held decided
    pub original : IsOriginal parse sha256 paths r held decided
    pub same_registration : sha256 original.registration ≡ sha256 registration_bytes
    pub local : v ≡ local_release sha256 held decided.receipt

  binding_of-digest :
      (digest : List ℕ) (registration : Value) (b : Binding)
      → binding_of paths (λ _. digest) registration ≡ ok b
      → key b.common "registration_digest" ≡ str digest
  unfolding binding_of key common_of
  binding_of-digest digest registration b e =
      ap (λ (x : Binding). key x.common "registration_digest") (sym (allowed _ _ _ b e))

  record Sealed (stat : FileStat) : Type 0 where
    regular : stat.is_file ≡ true
    root_owned : stat.owner ≡ 0
    linked_once : stat.links ≡ 1
    not_writable : is_writable stat.mode ≡ false

  is_sealed-Sealed : (stat : FileStat) → is_sealed stat ≡ true → Sealed stat
  unfolding is_sealed
  is_sealed-Sealed stat e = record {
    regular = ground arith;
    root_owned = ground arith;
    linked_once = ground arith;
    not_writable = ground arith;
  }

  unless_missing-none : (e : IoError) (v : Value) → ¬ (unless_missing e ≡ ok (some v))
  unfolding unless_missing if_missing
  unless_missing-none e v h = by_kind e.kind h
    where
      by_kind :
          (kind : ErrorKind)
          → ¬ (if_missing {A = Result (Option Value)} kind (ok none) (err e) ≡ ok (some v))
      by_kind not_found p = absurd (ground arith)
      by_kind _ p = absurd (ground arith)

  record Received (bound : Binding) (directory : DirStat) (v : Value) : Type 0 where
    held : Held
    decided : Decided
    file : Opened
    bound_held : held.bound ≡ bound
    opened : r.receipt ≡ ok file
    stat_is : file.stat ≡ ok held.stat
    content_is : file.content ≡ ok held.content
    sealed : Sealed held.stat
    decision : IsDecided parse sha256 paths r held decided
    original : IsOriginal parse sha256 paths r held decided
    local : v ≡ local_release sha256 held decided.receipt

  opened_released-Received :
      (bound : Binding) (directory : DirStat) (file : Opened) (v : Value)
      → r.receipt ≡ ok file
      → opened_released parse sha256 paths r bound directory file ≡ ok (some v)
      → Received bound directory v
  unfolding opened_released
  opened_released-Received bound directory file v o e =
      let (stat, s, e1) = reached file.stat _ (some v) e in
      let (sealed, e2) = passed (is_sealed stat) _ v e1 in
      let (content, c, e3) = reached file.content _ (some v) e2 in
      let h : Held = record {
        bound = bound;
        directory = directory;
        stat = stat;
        content = content;
      } in
      let (d, decision, original, local) = content_released-IsDecided parse sha256 paths r h v e3 in
      record {
        held = h;
        decided = d;
        file = file;
        bound_held = refl;
        opened = o;
        stat_is = s;
        content_is = c;
        sealed = is_sealed-Sealed stat sealed;
        decision = decision;
        original = original;
        local = local;
      }

  directory_released-Received :
      (bound : Binding) (directory : DirStat) (v : Value) (receipt : Result Opened)
      → r.receipt ≡ receipt
      → directory_released parse sha256 paths r bound directory receipt ≡ ok (some v)
      → Received bound directory v
  unfolding directory_released
  directory_released-Received bound directory v (ok file) o e =
      opened_released-Received bound directory file v o e
  directory_released-Received bound directory v (err x) o e = absurd (unless_missing-none x v e)

  pub vouched-IsVouched : (v : Value) → vouched parse sha256 paths r ≡ ok (some v) → IsVouched v
  unfolding vouched bound_of
  vouched-IsVouched v e =
      let (bytes, b, e1) = reached r.registration _ (some v) e in
      let (registration, p, e2) = reached (parse bytes) _ (some v) e1 in
      let (bound, q, e3) =
        reached (binding_of paths (λ _. sha256 bytes) registration) _ (some v) e2 in
      let (directory, s, e4) = reached r.directory _ (some v) e3 in
      let (real, e5) = passed (directory.is_dir && not directory.is_link) _ v e4 in
      let (canonical, c, e6) = reached r.is_canonical _ (some v) e5 in
      let (is_canonical, e7) = passed canonical _ v e6 in
      let w = directory_released-Received bound directory v r.receipt refl e7 in
      record {
        registration_bytes = bytes;
        registration = registration;
        held = w.held;
        decided = w.decided;
        receipt_file = w.file;
        registration_read = b;
        registration_is = p;
        binds = q ∙ ap ok (sym w.bound_held);
        opened = w.opened;
        stat_is = w.stat_is;
        content_is = w.content_is;
        is_regular = w.sealed.regular;
        of_root = w.sealed.root_owned;
        one_name = w.sealed.linked_once;
        read_only = w.sealed.not_writable;
        decision = w.decision;
        original = w.original;
        same_registration = str-injective (
            sym w.original.registration_named
            ∙ binding_of-digest (sha256 bytes) registration w.held.bound
                (q ∙ ap ok (sym w.bound_held)));
        local = w.local;
      }
