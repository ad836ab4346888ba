-- ===== src/Publication/Losing.antt =====
-- What stands in for an output that cannot be frozen, src/continuation.rs and its child
-- missing_output.rs: `observe`, `recover_output`.
use agent_bash_tool.Common.{Bool, true, false, ◌&&◌, Option, none, some, ◌==◌, ◌++◌, if◌then◌else◌}
use agent_bash_tool.Common.Bytes.{codes}
use agent_bash_tool.Effects.{
  ErrorKind, not_found, would_block, already_exists, interrupted, invalid_data, other, Result, ok,
  err,
}
use agent_bash_tool.Effects.Actors.{
  Program, returns, fails, ◌>>=◌, ◌>>◌, attempt, lifted, reads, touches,
}
use agent_bash_tool.Identity.{CallerChainEntry}
use agent_bash_tool.RootProtocol.Json.{Value, str, object, empty, field, at, value_eq}
use agent_bash_tool.Publication.Evidence.{
  Event, Evidence, Loss, Outside, Selection, entry_json, text,
}
use agent_bash_tool.Publication.Finish.{
  finish_observation_with_output, finish_snapshot, freeze, proof_file, put_proof,
}
use agent_bash_tool.Publication.Immutable.{immutable, is_there}
use agent_bash_tool.Publication.Select.{observation_file, selection_file}
use agent_bash_tool.Continuation.Files.{or_missing}

abbrev pub is_blocked : ErrorKind → Bool
is_blocked would_block = true
is_blocked not_found = false
is_blocked already_exists = false
is_blocked interrupted = false
is_blocked invalid_data = false
is_blocked other = false

abbrev loss_detail : Value
loss_detail = str (
    codes "Exact original observer is gone. Original selection record and same source "
    ++ codes "directory were inspected; no complete body or in-progress copy survives. "
    ++ codes "Managed retained inode inventory establishes selection loss; later log bytes "
    ++ codes "were not substituted.")

module _ (o : Outside) where
  abbrev pub proof_of : Event → CallerChainEntry → Loss → Value
  proof_of staged own loss = object (
      field (codes "representation") (text "missing-original-output-v1") (
        field (codes "capture_state") (text "irrecoverable") (
          field (codes "reason") (str loss.reason) (
            field (codes "detail") loss_detail (
              field (codes "producer") (entry_json own) (
                field (codes "original_observer") (at staged.outcome (codes "observer")) (
                  field (codes "completion_revision")
                    (at staged.outcome (codes "completion_revision"))
                    (field (codes "outcome_sha256") (str (o.digest staged.outcome)) (
                      field (codes "selection") loss.selected
                        (field (codes "observed_byte_len") loss.observed empty))))))))))

  unfoldable pub attest : Event → Option Loss → Program Evidence (Option Value)
  unfolding immutable
  attest staged none = returns none
  attest staged (some loss) = do
    touches
    own ← lifted o.self
    immutable value_eq proof_file put_proof (proof_of staged own loss)
    returns (some (proof_of staged own loss))

  abbrev pub may_attest : Selection → Bool
  may_attest selection =
      selection.directory.device == o.directory.device
      && selection.directory.inode == o.directory.inode

  unfoldable pub observe_gone : Event → Program Evidence (Option Value)
  unfolding attest
  observe_gone staged = do
    chosen ← reads selection_file
    selection ← lifted (or_missing chosen)
    if may_attest selection then attest staged o.lost else returns none

  unfoldable pub observe_new : Program Evidence (Option Value)
  unfolding observe_gone
  observe_new = do
    file ← reads observation_file
    staged ← lifted (or_missing file)
    if o.observer_gone (at staged.outcome (codes "observer"))
        then observe_gone staged
        else returns none

  -- `missing_output::observe`, with the loss that its inventory of the directory finds.
  unfoldable pub observe : Program Evidence (Option Value)
  unfolding observe_new
  observe = do proof ← reads proof_file; if is_there proof then returns proof else observe_new

  unfoldable pub after_observe : Option Value → Program Evidence Bool
  unfolding finish_observation_with_output
  after_observe none = returns false
  after_observe (some proof) = do finish_observation_with_output o proof; returns true

  -- Whether the output is frozen or its loss published; a failure to copy is no proof of loss.
  unfoldable pub after_freeze : Result (Unit {0}) → Program Evidence Bool
  unfolding observe after_observe
  after_freeze (ok frozen) = returns true
  after_freeze (err e) = do touches; touches; proof ← observe; after_observe proof

  unfoldable pub recover_locked : Result (Unit {0}) → Program Evidence Bool
  unfolding freeze after_freeze
  recover_locked (ok lock) = attempt (freeze o) >>= after_freeze
  recover_locked (err e) = if is_blocked e.kind then returns false else fails e

  unfoldable pub recover_output : Program Evidence Bool
  unfolding recover_locked finish_snapshot
  recover_output = do
    bundled_already ← reads (λ d. is_there d.chain.bundle)
    if bundled_already
        then finish_snapshot o >>= (λ _. returns true)
        else attempt touches >>= recover_locked
