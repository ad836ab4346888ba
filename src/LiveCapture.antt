-- ===== src/LiveCapture.antt =====
-- src/live_capture.rs: the bounded copy of the supervised output that a live viewer reads.
-- Positions and charges wrap at 64 bits as `u64` and `usize` do; a failing `expect` is `none`.
pub mod Stream
pub mod Window
pub mod Annotated
pub mod Reads
mod Tests
use agent_bash_tool.Common.{
  ℕ, suc, ◌+◌, ◌-◌, ◌%◌, ◌^◌, Bool, true, false, Option, none, some, List, [], ◌∷◌, ◌++◌, ltb, leb,
  length, keep_if, is_empty, if◌then◌else◌,
}

-- `u64` and `usize` arithmetic.
abbrev pub word : ℕ → ℕ
word n = n % 2 ^ 64

abbrev pub record_charge : ℕ
record_charge = 64

pub data Channel : Type 0 where
  stdout stderr : Channel

pub record Position : Type 0 where
  pub seq : ℕ
  pub stdout_bytes : ℕ
  pub stderr_bytes : ℕ

abbrev pub origin : Position
origin = record { seq = 0; stdout_bytes = 0; stderr_bytes = 0 }

pub advance : Position → Channel → ℕ → Position
advance p stdout len = record p {
  seq = word (p.seq + 1);
  stdout_bytes = word (p.stdout_bytes + len);
}
advance p stderr len = record p {
  seq = word (p.seq + 1);
  stderr_bytes = word (p.stderr_bytes + len);
}

pub record Record : Type 0 where
  pub start : Position
  pub channel : Channel
  pub bytes : List ℕ

pub record Gap : Type 0 where
  pub from : Position
  pub to : Position

pub record Read : Type 0 where
  pub gap : Option Gap
  pub records : List Record
  pub next : Position

pub record LiveCapture : Type 0 where
  pub budget : ℕ
  pub charged : ℕ
  pub records : List Record
  pub next : Position

pub new : ℕ → LiveCapture
new budget = record { budget = budget; charged = 0; records = []; next = origin }

abbrev pub charge_of : List ℕ → ℕ
charge_of bytes = word (length bytes + record_charge)

-- `while self.charged + charge > self.budget { pop_front, subtract its charge }`; the oldest record
-- is the head of the list, and `none` is the failing `expect`.
pub evict : ℕ → ℕ → ℕ → List Record → Option (ℕ × List Record)
evict budget charge charged [] =
    if ltb budget (word (charged + charge)) then none else some (charged, [])
evict budget charge charged (r ∷ rs) =
    let rest = evict budget charge (word (charged + 2 ^ 64 - charge_of r.bytes)) rs in
    if ltb budget (word (charged + charge)) then rest else some (charged, r ∷ rs)

-- The end of `record`: the new record goes to the back of the queue.
abbrev pub append_record : LiveCapture → Record → ℕ → Option (ℕ × List Record) → Option LiveCapture
append_record c r charge none = none
append_record c r charge (some (charged, kept)) =
    some (record c { charged = word (charged + charge); records = kept ++ r ∷ [] })

pub record_chunk : LiveCapture → Channel → List ℕ → Option LiveCapture
unfolding evict advance
record_chunk c channel bytes =
    let start = c.next in
    let moved = record c { next = advance start channel (length bytes) } in
    let charge = charge_of bytes in
    let r : Record = record { start = start; channel = channel; bytes = bytes } in
    if is_empty bytes
    then some c
    else if ltb c.budget charge
    then some (record moved { records = []; charged = 0 })
    else append_record moved r charge (evict c.budget charge c.charged c.records)

pub first : LiveCapture → Position
first c = elim c.records [ [] ↦ c.next | r ∷ rs ↦ r.start ]

pub read_from : LiveCapture → Position → Option Read
unfolding first
read_from c cursor =
    if ltb c.next.seq cursor.seq
    then none
    else some (record {
      gap =
          if ltb cursor.seq (first c).seq
          then some (record { from = cursor; to = first c })
          else none;
      records = keep_if (λ r. leb cursor.seq r.start.seq) c.records;
      next = c.next;
    })
