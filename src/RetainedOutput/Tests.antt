-- ===== src/RetainedOutput/Tests.antt =====
-- A log of two bytes that grows by one, and by one more before it is read.
use agent_bash_tool.Common.{ℕ, ◌≡◌, ◌↔◌, true, false, none, List, [], ◌∷◌, String}
use agent_bash_tool.Effects.{Result, ok, World, fine, fails_after, error_other}
use agent_bash_tool.Effects.Meets.{Post}
use agent_bash_tool.Custody.{Text, absent, file}
use agent_bash_tool.RetainedOutput.{
  Log, Source, SourceIdentity, acquire, validate, identity_of, hex,
}
use agent_bash_tool.RetainedOutput.Receipt.{Shelf, record_receipt}
use agent_bash_tool.RetainedOutput.Receipt.Published.{
  KeepsReceipt, RecordsReceipt, record_receipt-IsReceipt,
}
use agent_bash_tool.RetainedOutput.Validated.{IsOfLog, validate-IsOfLog}
use agent_bash_tool.RetainedOutput.Snapshots.{snapshot_survives}

abbrev source : Source
source = record { handle = "h1"; created_at = 3 }

abbrev digest : List ℕ → String
digest [] = "empty"
digest (b ∷ bs) = "some"

snapshot_survives_example :
    (acquire digest
        (record { is_file = true; opened_length = 2; content = b'o' ∷ b'k' ∷ b'!' ∷ [] })
        source
        none
      ≡ ok (record {
        identity = identity_of digest source (b'o' ∷ b'k' ∷ []);
        output = hex (b'o' ∷ b'k' ∷ []);
      }))
    × (validate digest
          (record { is_file = true; opened_length = 3; content = b'o' ∷ b'k' ∷ b'!' ∷ b'?' ∷ [] })
          source
          (identity_of digest source (b'o' ∷ b'k' ∷ []))
        ≡ ok tt)
snapshot_survives_example =
    snapshot_survives digest source (b'o' ∷ b'k' ∷ []) (b'!' ∷ []) (b'!' ∷ []) (b'?' ∷ [])

abbrev whole_log : Log
whole_log = record { is_file = true; opened_length = 2; content = b'o' ∷ b'k' ∷ b'!' ∷ [] }

validate-IsOfLog_example :
    (validate digest whole_log source (identity_of digest source (b'o' ∷ b'k' ∷ [])) ≡ ok tt)
    ↔ IsOfLog digest whole_log source (identity_of digest source (b'o' ∷ b'k' ∷ []))
validate-IsOfLog_example =
    validate-IsOfLog digest whole_log source (identity_of digest source (b'o' ∷ b'k' ∷ []))

-- The receipt of an older snapshot stands, and the second access of the new one fails.
abbrev shelf : World Shelf
shelf = record {
  disk = record {
    consumed = absent;
    receipt = file (b'o' ∷ []);
    is_synced = true;
    is_linked = true;
    staging = absent;
    staging_synced = false;
  };
  faults = fine ∷ fails_after (error_other "I/O error") ∷ [];
}

abbrev encode : SourceIdentity → Result Text
encode identity = ok (b'n' ∷ [])

record_receipt-IsReceipt_example :
    Post
      (KeepsReceipt encode (identity_of digest source []) (file (b'o' ∷ [])))
      (RecordsReceipt encode (identity_of digest source []) (file (b'o' ∷ [])))
      (record_receipt encode (identity_of digest source []) shelf)
record_receipt-IsReceipt_example =
    record_receipt-IsReceipt encode (identity_of digest source []) shelf
