-- ===== src/RootWork/Tests.antt =====
-- Runs of the keyring description at concrete texts.
use agent_bash_tool.Common.{ℕ, ◌≡◌, refl, true, false, List}
use agent_bash_tool.Common.Bytes.{codes, split}
use agent_bash_tool.Common.Decimal.{parse_unsigned, read_digits, print_unsigned, digits}
use agent_bash_tool.Effects.{ok}
use agent_bash_tool.RootWork.{
  parse_session_ring_description, canonical_decimal, valid_paired_ring_uuid, uuid_bytes,
}
use agent_bash_tool.RootWork.Ring.{IsPairedRing, paired-IsPairedRing}

abbrev paired : List ℕ
paired =
    codes
      "keyring;1000;1000;3f010000;oulipoly-paired-original-work-v1:01234567-89ab-4def-8123-456789abcdef"

paired_ring : parse_session_ring_description (λ t. true) paired 1000 ≡ ok true
unfolding parse_session_ring_description split canonical_decimal parse_unsigned read_digits
    print_unsigned digits valid_paired_ring_uuid uuid_bytes
paired_ring = refl

other_ring :
    parse_session_ring_description (λ t. true) (codes "keyring;1000;1000;3f010000;_ses") 1000
    ≡ ok false
unfolding parse_session_ring_description split canonical_decimal parse_unsigned read_digits
    print_unsigned digits valid_paired_ring_uuid uuid_bytes
other_ring = refl

paired-IsPairedRing_example : IsPairedRing 1000 paired
paired-IsPairedRing_example = paired-IsPairedRing (λ t. true) paired 1000 paired_ring
