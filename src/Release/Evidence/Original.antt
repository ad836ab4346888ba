-- ===== src/Release/Evidence/Original.antt =====
-- What is read of the evidence where retention_released of src/continuation.rs goes on to the release.
use agent_bash_tool.Common.{
  ℕ, ◌≡◌, refl, sym, ◌∙◌, ap, Bool, true, false, some, String, List, ◌∷◌, if◌then◌else◌, arith,
}
use agent_bash_tool.Effects.{Result, ok}
use agent_bash_tool.RootProtocol.Json.{Value, str, as_str}
use agent_bash_tool.RootProtocol.Json.Equal.{value_eq_sound, is_text_sound}
use agent_bash_tool.Continuation.Files.{Paths, exact}
use agent_bash_tool.Effects.Results.{reached}
use agent_bash_tool.Release.{Stamped, Readings, Decided, Held, key, required, source_stamp_matches}
use agent_bash_tool.Release.Evidence.{
  local_release, still_there, names_output, output_released, is_told, told_released,
  evidence_released, has_digests, stamps_match, files_released,
}
use agent_bash_tool.Release.Evidence.Stamps.{
  passed, unwrapped, Reads, IsStampOf, source_stamp_matches-IsStampOf,
}

module _ (parse : List ℕ → Result Value) (sha256 : List ℕ → List ℕ) (paths : Paths) (r : Readings)
    (h : Held) (d : Decided) where
  -- The evidence on disk is the one that was published and accepted.
  pub record IsOriginal : Type 0 where
    pub registration : List ℕ
    pub snapshot_text : List ℕ
    pub outcome_text : List ℕ
    pub output : List ℕ
    pub registration_read : Reads parse sha256 r.registration_file h.directory.owner registration
    pub snapshot_read : Reads parse sha256 r.snapshot_file h.directory.owner snapshot_text
    pub outcome_read : Reads parse sha256 r.outcome_file h.directory.owner outcome_text
    pub output_read : Reads parse sha256 r.output_file h.directory.owner output
    pub registration_named : key h.bound.common "registration_digest" ≡ str (sha256 registration)
    pub snapshot_sealed :
        key (key d.acceptance "evidence_seal") "snapshot_sha256" ≡ str (sha256 snapshot_text)
    pub outcome_sealed :
        key (key d.acceptance "evidence_seal") "outcome_sha256" ≡ str (sha256 outcome_text)
    pub snapshot : Value
    pub outcome : Value
    pub payload_json : List ℕ
    pub payload : Value
    pub snapshot_is : r.snapshot ≡ ok snapshot
    pub outcome_is : r.outcome ≡ ok outcome
    pub payload_is : parse payload_json ≡ ok payload
    pub payload_named : key d.receipt "payload_sha256" ≡ str (sha256 payload_json)
    pub tells_snapshot : key payload "snapshot" ≡ snapshot
    pub tells_outcome : key payload "outcome" ≡ outcome
    pub outcome_named : key snapshot "outcome_sha256" ≡ str (sha256 outcome_text)
    pub output_named : key (key snapshot "output") "sha256" ≡ str (sha256 output)

  abbrev Output : Type 0
  Output =
      IsStampOf parse sha256 (key d.receipt "artifact_original") r.output_file h.directory.owner

  named_digest :
      (relative : List ℕ)
      → names_output d.receipt relative ≡ true
      → key (key d.receipt "artifact_original") "sha256"
        ≡ key (key d.receipt "selected_output") "sha256"
  unfolding names_output
  named_digest relative named =
      value_eq_sound (key (key d.receipt "artifact_original") "sha256")
        (key (key d.receipt "selected_output") "sha256") (ground arith)

  -- The output is the one that the receipt selects.
  output_released-Output :
      (v : Value)
      → output_released parse sha256 paths r h d ≡ ok (some v)
      → (output : List ℕ) × Reads parse sha256 r.output_file h.directory.owner output
        × (key (key d.receipt "selected_output") "sha256" ≡ str (sha256 output))
        × (v ≡ local_release sha256 h d.receipt)
  unfolding output_released still_there
  output_released-Output v e =
      let (relative, q, e1) = reached _ _ (some v) e in
      let (named, e2) = passed _ _ v e1 in
      let (matches, m, e3) = reached _ _ (some v) e2 in
      let (matched, e4) = passed matches _ v e3 in
      let (now, n, e5) = reached r.receipt_now _ (some v) e4 in
      let (there, n', e6) = reached r.directory_now _ (some v) e5 in
      let (still, e7) = passed _ _ v e6 in
      let (output, read, digest) =
        source_stamp_matches-IsStampOf parse sha256 r.output_file _ _ (m ∙ ap ok matched) in
      (output, read, sym (named_digest relative named) ∙ digest, sym (unwrapped e7))

  abbrev IsStamp : String → Stamped → Type 0
  IsStamp name f = IsStampOf parse sha256 (key d.receipt name) f h.directory.owner

  stamps_match-IsStamp :
      (f : Stamped) (name : String) (rest : List (Stamped × String))
      → stamps_match parse sha256 paths r h d ((f, name) ∷ rest) ≡ ok true
      → IsStamp name f × (stamps_match parse sha256 paths r h d rest ≡ ok true)
  unfolding stamps_match
  stamps_match-IsStamp f name rest e =
      let (matches, m, e1) = reached (source_stamp_matches parse sha256 f _ _) _ true e in
      let (matched, e2) = agreed matches _ e1 in
      (source_stamp_matches-IsStampOf parse sha256 f (key d.receipt name) _ (m ∙ ap ok matched), e2)
    where
      agreed :
          (matches : Bool) (next : Result Bool)
          → (if matches then next else ok false) ≡ ok true
          → (matches ≡ true) × (next ≡ ok true)
      agreed true next e = (refl, e)
      agreed false next e = absurd (ground arith)

  -- Each digest in the receipt is the one that was bound or accepted.
  record Bound : Type 0 where
    registration_bound :
        key (key d.receipt "registration_file") "sha256" ≡ key h.bound.common "registration_digest"
    snapshot_accepted :
        key (key d.receipt "snapshot_file") "sha256"
        ≡ key (key d.acceptance "evidence_seal") "snapshot_sha256"
    outcome_accepted :
        key (key d.receipt "outcome_file") "sha256"
        ≡ key (key d.acceptance "evidence_seal") "outcome_sha256"

  has_digests-Bound : has_digests h d ≡ true → Bound
  unfolding has_digests
  has_digests-Bound e = record {
    registration_bound = value_eq_sound _ _ (ground arith);
    snapshot_accepted = value_eq_sound _ _ (ground arith);
    outcome_accepted = value_eq_sound _ _ (ground arith);
  }

  record Told (payload_json : List ℕ) (payload snapshot outcome : Value) : Type 0 where
    outcome_told : key snapshot "outcome_sha256" ≡ key (key d.receipt "outcome_file") "sha256"
    output_told : key snapshot "output" ≡ key d.receipt "selected_output"
    payload_told : key d.receipt "payload_sha256" ≡ str (sha256 payload_json)
    snapshot_same : key payload "snapshot" ≡ snapshot
    outcome_same : key payload "outcome" ≡ outcome

  is_told-Told :
      (payload_json : List ℕ) (payload snapshot outcome : Value)
      → is_told parse sha256 paths r h d payload_json payload snapshot outcome ≡ true
      → Told payload_json payload snapshot outcome
  unfolding is_told
  is_told-Told payload_json payload snapshot outcome e = record {
    outcome_told = value_eq_sound _ _ (ground arith);
    output_told = value_eq_sound _ _ (ground arith);
    payload_told = is_text_sound _ _ (ground arith);
    snapshot_same = value_eq_sound _ _ (ground arith);
    outcome_same = value_eq_sound _ _ (ground arith);
  }

  -- What the snapshot, the outcome and the payload add to the stamps.
  record Evident (v : Value) : Type 0 where
    snapshot : Value
    outcome : Value
    payload_json : List ℕ
    payload : Value
    snapshot_is : r.snapshot ≡ ok snapshot
    outcome_is : r.outcome ≡ ok outcome
    payload_is : parse payload_json ≡ ok payload
    told : Told payload_json payload snapshot outcome
    released : output_released parse sha256 paths r h d ≡ ok (some v)

  evidence_released-Evident :
      (v : Value) → evidence_released parse sha256 paths r h d ≡ ok (some v) → Evident v
  unfolding evidence_released told_released
  evidence_released-Evident v e =
      let (snapshot, s, e1) = reached r.snapshot _ (some v) e in
      let (outcome, o, e2) = reached r.outcome _ (some v) e1 in
      let (payload_json, j, e3) =
        reached (required (as_str (key d.receipt "payload_json")) _) _ (some v) e2 in
      let (payload, p, e4) = reached (parse payload_json) _ (some v) e3 in
      let (u, x, e5) = reached (exact h.bound.common snapshot) _ (some v) e4 in
      let (u', x', e6) = reached (exact h.bound.common outcome) _ (some v) e5 in
      let (t, e7) =
        passed (is_told parse sha256 paths r h d payload_json payload snapshot outcome) _ v e6 in
      record {
        snapshot = snapshot;
        outcome = outcome;
        payload_json = payload_json;
        payload = payload;
        snapshot_is = s;
        outcome_is = o;
        payload_is = p;
        told = is_told-Told payload_json payload snapshot outcome t;
        released = e7;
      }

  pub files_released-IsOriginal :
      (v : Value)
      → files_released parse sha256 paths r h d ≡ ok (some v)
      → IsOriginal × (v ≡ local_release sha256 h d.receipt)
  unfolding files_released
  files_released-IsOriginal v e =
      let (matches, m, e1) = reached (stamps_match parse sha256 paths r h d _) _ (some v) e in
      let (matched, e2) = passed matches _ v e1 in
      let (has, e3) = passed (has_digests h d) _ v e2 in
      let bound = has_digests-Bound has in
      let ((registration, reg_read, reg_digest), m1) =
        stamps_match-IsStamp r.registration_file "registration_file" _ (m ∙ ap ok matched) in
      let ((snapshot_text, snap_read, snap_digest), m2) =
        stamps_match-IsStamp r.snapshot_file "snapshot_file" _ m1 in
      let ((outcome_text, out_read, out_digest), m3) =
        stamps_match-IsStamp r.outcome_file "outcome_file" _ m2 in
      let w = evidence_released-Evident v e3 in
      let (output, output_read, selected, local) = output_released-Output v w.released in
      (
        record {
          registration = registration;
          snapshot_text = snapshot_text;
          outcome_text = outcome_text;
          output = output;
          registration_read = reg_read;
          snapshot_read = snap_read;
          outcome_read = out_read;
          output_read = output_read;
          registration_named = sym bound.registration_bound ∙ reg_digest;
          snapshot_sealed = sym bound.snapshot_accepted ∙ snap_digest;
          outcome_sealed = sym bound.outcome_accepted ∙ out_digest;
          snapshot = w.snapshot;
          outcome = w.outcome;
          payload_json = w.payload_json;
          payload = w.payload;
          snapshot_is = w.snapshot_is;
          outcome_is = w.outcome_is;
          payload_is = w.payload_is;
          payload_named = w.told.payload_told;
          tells_snapshot = w.told.snapshot_same;
          tells_outcome = w.told.outcome_same;
          outcome_named = w.told.outcome_told ∙ out_digest;
          output_named = ap (λ x. key x "sha256") w.told.output_told ∙ selected;
        },
        local,
      )
