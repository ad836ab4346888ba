-- ===== src/Release/Receipt/Decision.antt =====
-- What Broker's receipt and decision say where retention_released of src/continuation.rs goes on.
use agent_bash_tool.Common.{ℕ, ◌≡◌, ◌∙◌, true, ◌&&◌, some, List, ◌==◌, length, arith, both, equal}
use agent_bash_tool.Effects.{Result, ok}
use agent_bash_tool.RootProtocol.Json.{Value, str, as_str}
use agent_bash_tool.RootProtocol.Json.Equal.{value_eq_sound, is_text_sound}
use agent_bash_tool.Continuation.Files.{Paths}
use agent_bash_tool.Effects.Results.{reached}
use agent_bash_tool.Release.{Readings, Decided, Held, key, required}
use agent_bash_tool.Release.Evidence.{local_release}
use agent_bash_tool.Release.Evidence.Original.{IsOriginal, files_released-IsOriginal}
use agent_bash_tool.Release.Receipt.{
  chains, agree_on, shared_keys, decision_released, names_source, receipt_released,
  content_released,
}
use agent_bash_tool.Release.Evidence.Stamps.{passed}

module _ (parse : List ℕ → Result Value) (sha256 : List ℕ → List ℕ) (paths : Paths)
    (r : Readings) where
  -- Broker's receipt is of this source, and its decision of the acceptance that it carries.
  pub record IsDecided (h : Held) (d : Decided) : Type 0 where
    pub acceptance_json : List ℕ
    pub release_json : List ℕ
    pub whole : length h.content ≡ h.stat.len
    pub receipt_is : parse h.content ≡ ok d.receipt
    pub acceptance_is : parse acceptance_json ≡ ok d.acceptance
    pub decision_is : parse release_json ≡ ok d.decision
    pub acceptance_named : key d.receipt "acceptance_sha256" ≡ str (sha256 acceptance_json)
    pub release_named : key d.receipt "release_sha256" ≡ str (sha256 release_json)
    pub decided_on : key d.decision "acceptance_sha256" ≡ str (sha256 acceptance_json)
    pub of_handle : key d.receipt "handle" ≡ str paths.handle
    pub accepts : key d.acceptance "registration_id" ≡ key h.bound.registration "registration_id"
    pub releases : key d.decision "registration_id" ≡ key h.bound.registration "registration_id"

  record Chained (h : Held) (d : Decided) (acceptance_json release_json : List ℕ) : Type 0 where
    acceptance_chained : key d.receipt "acceptance_sha256" ≡ str (sha256 acceptance_json)
    release_chained : key d.receipt "release_sha256" ≡ str (sha256 release_json)
    decision_chained : key d.decision "acceptance_sha256" ≡ key d.receipt "acceptance_sha256"

  chains-Chained :
      (h : Held) (d : Decided) (acceptance_json release_json : List ℕ)
      → chains parse sha256 paths r h d acceptance_json release_json ≡ true
      → Chained h d acceptance_json release_json
  unfolding chains
  chains-Chained h d acceptance_json release_json e = record {
    acceptance_chained = is_text_sound _ _ (ground arith);
    release_chained = is_text_sound _ _ (ground arith);
    decision_chained = value_eq_sound _ _ (ground arith);
  }

  agreed :
      (d : Decided)
      → agree_on d shared_keys ≡ true
      → (key d.acceptance "registration_id" ≡ key d.receipt "registration_id")
        × (key d.decision "registration_id" ≡ key d.receipt "registration_id")
  unfolding agree_on
  agreed d e = (value_eq_sound _ _ (ground arith), value_eq_sound _ _ (ground arith))

  named :
      (h : Held) (receipt : Value)
      → names_source parse sha256 paths r h receipt ≡ true
      → (key receipt "handle" ≡ str paths.handle)
        × (key receipt "registration_id" ≡ key h.bound.registration "registration_id")
  unfolding names_source
  named h receipt e = (is_text_sound _ _ (ground arith), value_eq_sound _ _ (ground arith))

  pub content_released-IsDecided :
      (h : Held) (v : Value)
      → content_released parse sha256 paths r h ≡ ok (some v)
      → (d : Decided) × IsDecided h d
        × IsOriginal parse sha256 paths r h d
        × (v ≡ local_release sha256 h d.receipt)
  unfolding content_released receipt_released decision_released
  content_released-IsDecided h v e =
      let (whole, e1) = passed (length h.content == h.stat.len) _ v e in
      let (receipt, p, e2) = reached (parse h.content) _ (some v) e1 in
      let (names, e3) = passed (names_source parse sha256 paths r h receipt) _ v e2 in
      let (acceptance_json, a, e4) =
        reached (required (as_str (key receipt "acceptance_json")) _) _ (some v) e3 in
      let (release_json, l, e5) =
        reached (required (as_str (key receipt "release_json")) _) _ (some v) e4 in
      let (acceptance, pa, e6) = reached (parse acceptance_json) _ (some v) e5 in
      let (decision, pd, e7) = reached (parse release_json) _ (some v) e6 in
      let d : Decided = record {
        receipt = receipt;
        acceptance = acceptance;
        decision = decision;
      } in
      let (chain_and_keys, e8) =
        passed
          (chains parse sha256 paths r h d acceptance_json release_json && agree_on d shared_keys) _
          v e7 in
      let (chain, keys) =
        both (chains parse sha256 paths r h d acceptance_json release_json) _ chain_and_keys in
      let c = chains-Chained h d acceptance_json release_json chain in
      let (accepts, releases) = agreed d keys in
      let (of_handle, of_registration) = named h receipt names in
      let (original, local) = files_released-IsOriginal parse sha256 paths r h d v e8 in
      (
        d,
        record {
          acceptance_json = acceptance_json;
          release_json = release_json;
          whole = equal _ _ whole;
          receipt_is = p;
          acceptance_is = pa;
          decision_is = pd;
          acceptance_named = c.acceptance_chained;
          release_named = c.release_chained;
          decided_on = c.decision_chained ∙ c.acceptance_chained;
          of_handle = of_handle;
          accepts = accepts ∙ of_registration;
          releases = releases ∙ of_registration;
        },
        original,
        local,
      )
