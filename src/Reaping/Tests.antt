-- ===== src/Reaping/Tests.antt =====
-- Runs of the reaper at concrete handles.
use agent_bash_tool.Common.{ℕ, ◌≡◌, refl, ◌<◌, true, false, Option, none, some, [], ◌∷◌, arith}
use agent_bash_tool.Common.Int.{pos}
use agent_bash_tool.Common.Bytes.{codes}
use agent_bash_tool.Completion.{completion_lifecycle, needs_progress, default_delivery}
use agent_bash_tool.Meta.{Meta}
use agent_bash_tool.Meta.Samples.{finished_sample}
use agent_bash_tool.Custody.{Files, absent, physical_custody_may_remain, boot_custody_may_remain}
use agent_bash_tool.Identity.{no_entry, inspect_process_identity}
use agent_bash_tool.Reaping.Eligible.{
  Handle, JsonFile, not_there, ReapConfig, state_dir_reap_eligible, causal_parent_retains,
  accepted_root_result_pending, ttl_ms, state_dir_reap_age_ms, meta_is_reap_terminal,
  ready_sentinel_workload_may_be_running, process_is_gone_or_reused,
}
use agent_bash_tool.Reaping.Pass.{
  Entry, taken, stored, removed, entries, reap_state_dirs, reap_entries, reap_state_entry,
  next_reap_shard, handle_reap_shard, name_hash, bit_xor,
}
use agent_bash_tool.Reaping.Owed.{IsUnneeded, eligible-IsUnneeded}
use agent_bash_tool.Release.Receipt.{retention_released}
use agent_bash_tool.Release.Receipt.Recorded.{IsReleased}
use agent_bash_tool.Release.Receipt.Samples.{parse, digest, paths, readings, world, released}
use agent_bash_tool.Reaping.Released.{after_pass, eligible-IsReleased}
use agent_bash_tool.Reaping.Limits.{IsWithin, reap_state_dirs-IsWithin}
use agent_bash_tool.Reaping.Rotation.{shard_of_pass, each_shard_comes}

-- The completion was delivered.
abbrev delivered : Meta
delivered = record finished_sample {
  delivery = record default_delivery { attempted = true; exit_code = some (pos 0) };
}

abbrev no_custody : Files
no_custody = record {
  physical_custody = absent;
  external_transfer_custody = absent;
  accepted_cancel = absent;
  cancellation_drained = absent;
}

abbrev old_handle : Handle
old_handle = record {
  name = codes "ab_1";
  accepted = JsonFile.absent;
  root_result = JsonFile.absent;
  directory = λ parent. not_there;
  continuation_enabled = false;
  retention_released = none;
  meta = some delivered;
  custody = no_custody;
  proc = λ pid. no_entry;
  modified_at = none;
}

abbrev sample_config : ReapConfig
sample_config = record { ttl_secs = 1; max_dirs = 1; max_scan = 4; shards = 1; now = 5000 }

sample_eligible : state_dir_reap_eligible old_handle sample_config "b1" ≡ true
unfolding state_dir_reap_eligible causal_parent_retains accepted_root_result_pending ttl_ms
    state_dir_reap_age_ms meta_is_reap_terminal ready_sentinel_workload_may_be_running
    process_is_gone_or_reused inspect_process_identity completion_lifecycle needs_progress
    default_delivery physical_custody_may_remain boot_custody_may_remain
sample_eligible = refl

eligible-IsUnneeded_example : (m : Meta) × IsUnneeded old_handle sample_config "b1" m
eligible-IsUnneeded_example = eligible-IsUnneeded old_handle sample_config "b1" sample_eligible

abbrev registered : Handle
registered = record old_handle { continuation_enabled = true }

registered_eligible :
    state_dir_reap_eligible
      (record registered { retention_released = some true })
      sample_config
      "b1"
    ≡ true
unfolding state_dir_reap_eligible causal_parent_retains accepted_root_result_pending ttl_ms
    state_dir_reap_age_ms meta_is_reap_terminal ready_sentinel_workload_may_be_running
    process_is_gone_or_reused inspect_process_identity completion_lifecycle needs_progress
    default_delivery physical_custody_may_remain boot_custody_may_remain
registered_eligible = refl

released_eligible :
    state_dir_reap_eligible
      (after_pass parse digest paths readings world registered)
      sample_config
      "b1"
    ≡ true
released_eligible = rw released registered_eligible

eligible-IsReleased_example :
    IsReleased parse digest paths readings
      (retention_released parse digest paths readings world).1.disk
eligible-IsReleased_example =
    eligible-IsReleased parse digest paths readings world registered sample_config "b1" refl
      released_eligible

abbrev old_entry : Option Entry
old_entry = some (record {
  is_directory = true;
  delivery_lock = taken;
  custody_lock = taken;
  output_lock = taken;
  handle = old_handle;
  removal = removed;
})

-- Of two old directories one is removed.
one_removed :
    (reap_state_dirs
      (entries (old_entry ∷ old_entry ∷ []))
      stored
      none
      sample_config
      "b1").stats.reaped
    ≡ 1
unfolding reap_state_dirs reap_entries reap_state_entry next_reap_shard handle_reap_shard name_hash
    bit_xor state_dir_reap_eligible causal_parent_retains accepted_root_result_pending ttl_ms
    state_dir_reap_age_ms meta_is_reap_terminal ready_sentinel_workload_may_be_running
    process_is_gone_or_reused inspect_process_identity completion_lifecycle needs_progress
    default_delivery physical_custody_may_remain boot_custody_may_remain
one_removed = refl

reap_state_dirs-IsWithin_example :
    IsWithin sample_config "b1"
      (next_reap_shard stored none sample_config.shards).0
      (reap_state_dirs (entries (old_entry ∷ old_entry ∷ [])) stored none sample_config "b1")
reap_state_dirs-IsWithin_example =
    reap_state_dirs-IsWithin (entries (old_entry ∷ old_entry ∷ [])) stored none sample_config "b1"

each_shard_comes_example : (k : ℕ) × (k < 8) × (shard_of_pass (λ i. stored) k (some 5) 8 ≡ 3)
each_shard_comes_example = each_shard_comes (λ i. stored) (some 5) 8 3 (omega arith) (λ i h. refl)
