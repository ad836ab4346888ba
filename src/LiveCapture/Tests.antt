-- ===== src/LiveCapture/Tests.antt =====
-- A capture of three chunks under a budget that one record fills.
use agent_bash_tool.Common.{◌≡◌, ◌≤◌, ◌++◌, arith, some, [], ◌∷◌, List}
use agent_bash_tool.LiveCapture.{LiveCapture, Record, stdout, stderr, new, origin}
use agent_bash_tool.LiveCapture.Stream.{Chunk, run, annotate, finish, charges}
use agent_bash_tool.LiveCapture.Window.{run-new_window}
use agent_bash_tool.LiveCapture.Reads.{Exact, read_from_Exact}

abbrev before : List Chunk
before = (stdout, 104 ∷ 105 ∷ []) ∷ (stderr, []) ∷ []

abbrev after : List Chunk
after = (stderr, 33 ∷ []) ∷ (stdout, 10 ∷ []) ∷ []

run-new_window_example :
    (c : LiveCapture) × (dropped : List Record) × (run (new 100) (before ++ after) ≡ some c)
    × (annotate origin (before ++ after) ≡ dropped ++ c.records)
    × (c.charged ≡ charges c.records)
    × (c.charged ≤ 100)
    × (c.next ≡ finish origin (annotate origin (before ++ after)))
run-new_window_example = run-new_window 100 (before ++ after) (omega arith) (omega arith)

read_from_Exact_example :
    (c : LiveCapture) × (run (new 100) (before ++ after) ≡ some c)
    × Exact c (finish origin (annotate origin before)) after
read_from_Exact_example = read_from_Exact 100 before after (omega arith) (omega arith)
