-- ===== src/Supervisor/Sentinel/Tests.antt =====
-- A sentinel split over two chunks.
use agent_bash_tool.Common.{◌≡◌, refl, List, [], ◌∷◌, ◌++◌, ℕ, true, arith}
use agent_bash_tool.Supervisor.Sentinel.{new, push_stdout, is_word_byte, all_word_bytes}
use agent_bash_tool.Supervisor.Sentinel.Search.{contains}
use agent_bash_tool.Supervisor.Sentinel.Window.{
  pushes, last_bytes, all_bytes, push_stdout-eq-search,
}

abbrev sentinel_word : List ℕ
sentinel_word = b'u' ∷ b'p' ∷ []

is_plain : all_word_bytes sentinel_word ≡ true
unfolding all_word_bytes is_word_byte
is_plain = refl

push_stdout-eq-search_example :
    let m =
      push_stdout
        (b'p' ∷ b'\n' ∷ [])
        (pushes ((b'.' ∷ b'u' ∷ []) ∷ []) (new sentinel_word (contains sentinel_word) 2)) in
    let seen =
      last_bytes
        (new sentinel_word (contains sentinel_word) 2).limit
        (all_bytes ((b'.' ∷ b'u' ∷ []) ∷ []) ++ (b'p' ∷ b'\n' ∷ [])) in
    (m.previous_match ≡ contains sentinel_word seen) × (m.buffer ≡ seen)
push_stdout-eq-search_example =
    push_stdout-eq-search sentinel_word (contains sentinel_word) 2 ((b'.' ∷ b'u' ∷ []) ∷ [])
      (b'p' ∷ b'\n' ∷ []) (omega arith) is_plain (λ ys. refl)
