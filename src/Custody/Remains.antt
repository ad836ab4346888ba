-- ===== src/Custody/Remains.antt =====
-- What it takes to hold that no physical custody remains.
use agent_bash_tool.Common.{◌≡◌, ◌⊎◌, ◌↔◌, ◌∙◌, ap, refl, inl, inr, true, false, arith}
use agent_bash_tool.Custody.{
  Text, Entry, absent, file, unreadable, not_a_file, Files, same_text, valid_boot_id, read_text,
  boot_custody_may_remain, physical_custody_may_remain,
}

-- The marker is not there, or a valid other boot than the valid running one wrote it.
abbrev pub IsOver : Text → Entry → Type 0
IsOver boot e =
    (e ≡ absent)
    ⊎ ((recorded : Text) × (e ≡ file recorded)
        × (valid_boot_id recorded ≡ true)
        × (valid_boot_id boot ≡ true)
        × (same_text recorded boot ≡ false))

boot_custody-IsOver :
    (e : Entry) (boot : Text) → boot_custody_may_remain e boot ≡ false → IsOver boot e
unfolding boot_custody_may_remain read_text
boot_custody-IsOver absent boot h = inl refl
boot_custody-IsOver (file text) boot h = inr (text, refl, ground arith, ground arith, ground arith)
boot_custody-IsOver unreadable boot h = absurd (ground arith)
boot_custody-IsOver not_a_file boot h = absurd (ground arith)

IsOver-boot_custody :
    (e : Entry) (boot : Text) → IsOver boot e → boot_custody_may_remain e boot ≡ false
unfolding boot_custody_may_remain read_text
IsOver-boot_custody e boot (inl p) = ap (λ (x : Entry). boot_custody_may_remain x boot) p
IsOver-boot_custody e boot (inr h) =
    ap (λ (x : Entry). boot_custody_may_remain x boot) h.1 ∙ rw (h.2, h.3, h.4) refl

-- No physical custody remains exactly if each of the two markers is not there or was written by a valid
-- boot other than the valid running one; an unreadable marker or an unavailable boot id keeps it.
pub physical_custody_may_remain-IsOver :
    (d : Files) (boot : Text)
    → (physical_custody_may_remain d boot ≡ false)
      ↔ (IsOver boot d.physical_custody × IsOver boot d.external_transfer_custody)
unfolding physical_custody_may_remain
physical_custody_may_remain-IsOver d boot = (
  λ h. (
    boot_custody-IsOver d.physical_custody boot (ground arith),
    boot_custody-IsOver d.external_transfer_custody boot (ground arith),
  ),
  λ h.
      let a = IsOver-boot_custody d.physical_custody boot h.0 in
      let b = IsOver-boot_custody d.external_transfer_custody boot h.1 in ground arith,
)
